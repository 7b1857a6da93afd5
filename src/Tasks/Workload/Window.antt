-- ===== src/Tasks/Workload/Window.antt =====
-- The watermark of src/collectors/workload.py: which events are new, and the start of the window.
use sql_observability.Base.{
  Bool, ◌∙◌, ◌≡◌, refl, ℕ, ◌≤◌, ltb, ltb→lt, ltb_false→le, Option, none, some, List, [], ◌∷◌, All,
  map, keep, arith, subst, Bool-cases, inl, inr,
}
use sql_observability.Py.Errors.{ok_inj, ok, err, type_error, traverse, >>=-eq-ok}
use sql_observability.Py.Datetime.{Datetime, aware, naive, instant, after, earliest}
use sql_observability.Py.Xml.{Parsers}
use sql_observability.Py.Row.{Row}
use sql_observability.Tasks.Context.{Context}
use sql_observability.Tasks.Workload.{Event, newer, new_events, window_start, parse_row, transform}

after-eq : (a b : Datetime) (late : Bool) → after a b ≡ ok late → ltb (instant b) (instant a) ≡ late
unfolding after
after-eq (aware a) (aware b) late h = ok_inj h
after-eq (naive a) (naive b) late h = ok_inj h
after-eq (aware a) (naive b) late h = absurd (cc)
after-eq (naive a) (aware b) late h = absurd (cc)

-- Where no comparison raises, the events that a watermark lets through are those at a later
-- instant, in their order.
pub newer-eq :
    (watermark : Datetime) (events recent : List Event)
    → newer watermark events ≡ ok recent
    → keep (λ e. ltb (instant watermark) (instant e.timestamp)) events ≡ recent
unfolding newer
newer-eq watermark [] recent h = ok_inj h
newer-eq watermark (e ∷ events) recent h =
    let (late, e1, h1) = >>=-eq-ok (after e.timestamp watermark) _ h in
    let (rest, e2, h2) = >>=-eq-ok (newer watermark events) _ h1 in
    rw (after-eq e.timestamp watermark late e1, newer-eq watermark events rest e2) (ok_inj h2)

All-keep :
    (wm : ℕ) (events : List Event)
    → All (λ e. wm ≤ instant e.timestamp) (keep (λ e. ltb wm (instant e.timestamp)) events)
All-keep wm [] = tt
All-keep wm (e ∷ events) = elim (Bool-cases (ltb wm (instant e.timestamp))) [
  | inl late ↦ rw late (ground (arith, ltb→lt wm (instant e.timestamp) late), All-keep wm events)
  | inr early ↦ rw early (All-keep wm events)
]

earliest-le :
    (t : Datetime) (us : List Event) (m : Datetime)
    → earliest t (map (λ d. d.timestamp) us) ≡ ok m
    → (instant m ≤ instant t) × All (λ d. instant m ≤ instant d.timestamp) us
unfolding earliest
earliest-le t [] m h = (subst (λ x. instant x ≤ instant t) (ok_inj h) (omega arith), tt)
earliest-le t (u ∷ us) m h =
    let (earlier, e1, h1) = >>=-eq-ok (after t u.timestamp) _ h in
    let late = after-eq t u.timestamp earlier e1 in
    elim (Bool-cases earlier) [
      | inl yes' ↦
          let (le, others) = earliest-le u.timestamp us m (rw yes' at h1) in
          let lt = ltb→lt (instant u.timestamp) (instant t) (late ∙ yes') in
          (omega (arith, le, lt), (le, others))
      | inr no' ↦
          let (le, others) = earliest-le t us m (rw no' at h1) in
          let ge = ltb_false→le (instant u.timestamp) (instant t) (late ∙ no') in
          (le, (omega (arith, le, ge), others))
    ]

-- Where the new events and the start of their window are found, no new event lies before the
-- start.
pub window_start-le :
    (watermark : Option Datetime) (events : List Event) (e : Event) (rest : List Event)
    (start : Datetime)
    → new_events watermark events ≡ ok (e ∷ rest)
    → window_start watermark e rest ≡ ok start
    → All (λ d. instant start ≤ instant d.timestamp) (e ∷ rest)
unfolding new_events window_start
window_start-le none events e rest start h k = earliest-le e.timestamp rest start k
window_start-le (some wm) events e rest start h k =
    subst (λ s. All (λ d. instant s ≤ instant d.timestamp) (e ∷ rest)) (ok_inj k)
      (subst (All (λ d. instant wm ≤ instant d.timestamp)) (newer-eq wm events (e ∷ rest) h)
        (All-keep (instant wm) events))

-- If the rows parse to at least one event, the first event has an offset and the watermark has
-- none, the transform raises TypeError.
pub transform_naive :
    (p : Parsers) (ctx : Context) (rows : List Row) (e : Event) (events : List Event) (at wm : ℕ)
    → traverse (parse_row p) rows ≡ ok (e ∷ events)
    → e.timestamp ≡ aware at
    → ctx.watermark ≡ some (naive wm)
    → transform p ctx rows ≡ err type_error
unfolding transform new_events newer after
transform_naive p ctx rows e events at wm parsed stamp watermark =
    rw (parsed, watermark, stamp) refl
