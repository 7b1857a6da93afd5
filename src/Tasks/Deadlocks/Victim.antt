-- ===== src/Tasks/Deadlocks/Victim.antt =====
-- What the rows of src/collectors/deadlocks.py hold.
use sql_observability.Base.{◌≡◌, refl, List, [], ◌∷◌, All, map, subst}
use sql_observability.Py.Errors.{ok_inj, ok, err, type_error, >>=-eq-ok}
use sql_observability.Py.Xml.{Parsers}
use sql_observability.Py.Row.{Row, text, item, keys}
use sql_observability.Tasks.Context.{Context}
use sql_observability.Tasks.Deadlocks.{
  columns, Deadlock, row_of, new_events, parse_deadlock_events, transform,
}

keys-row_of :
    (ctx : Context) (events : List Deadlock) → All (λ r. keys r ≡ columns) (map (row_of ctx) events)
keys-row_of ctx [] = tt
keys-row_of ctx (e ∷ events) = (refl, keys-row_of ctx events)

pub transform-keys :
    (parsers : Parsers) (ctx : Context) (rows out : List Row)
    → transform parsers ctx rows ≡ ok out
    → All (λ r. keys r ≡ columns) out
unfolding transform
transform-keys parsers ctx [] [] h = tt
transform-keys parsers ctx [] (o ∷ out) h = absurd (cc)
transform-keys parsers ctx (r ∷ rows) out h =
    let (target, e1, h1) = >>=-eq-ok (item r "target_xml") _ h in
    let (events, e2, h2) =
      >>=-eq-ok (elim target [ text s ↦ parse_deadlock_events parsers s | _ ↦ err type_error ]) _
        h1 in
    let (recent, e3, h3) = >>=-eq-ok (new_events ctx.watermark events) _ h2 in
    subst (All (λ q. keys q ≡ columns)) (ok_inj h3) (keys-row_of ctx recent)
