-- ===== src/Tasks/Deadlocks/Reported.antt =====
-- The victim that src/collectors/deadlocks.py reports.
use sql_observability.Base.{
  ◌≡◌, ◌≢◌, ◌⊎◌, refl, sym, ap, ap₂, ◌∙◌, subst, String, true, false, none, some, Option, List, [],
  ◌∷◌, ◌++◌, All, map, any, In, Bool-cases, Option-cases, inl, inr, eq_iff, eq_refl, ◌==◌,
  or-eq-false,
}
use sql_observability.Base.Int.{ℤ}
use sql_observability.Py.Errors.{Result, ok_inj, ok, traverse, >>=-eq-ok}
use sql_observability.Py.Xml.{Element, Parsers, get_attrib, attrib_item, findall, find_first}
use sql_observability.Py.Text.{replace}
use sql_observability.Py.Row.{Row, Scalar, null, int, project}
use sql_observability.Tasks.Context.{Context}
use sql_observability.Tasks.Deadlocks.{
  Deadlock, is_victim, victim, session_id, victim_of, row_of, parse_one_deadlock, scalar, number,
}

-- A process whose id, if it has one, is on the victim list.
abbrev pub IsOn : List String → Element → Type 0
IsOn victim_ids p = (i : String) × (get_attrib p "id" ≡ some i) × In i victim_ids

-- What a row says of a victim.
abbrev pub reported : Row → Result (List Scalar)
reported = project ("victim_session_id" ∷ "victim_login" ∷ "victim_program" ∷ [])

-- The number of the session; NULL where the attribute is missing or empty.
abbrev pub IsSession : Parsers → Option String → Scalar → Type 0
IsSession parsers none v = v ≡ null
IsSession parsers (some s) v =
    ((s ≡ "") × (v ≡ null)) ⊎ ((s ≢ "") × ((n : ℤ) × (parsers.to_int s ≡ ok n) × (v ≡ int n)))

-- The row reports this process.
abbrev pub Reports : Parsers → Element → Row → Type 0
Reports parsers p r =
    (v : Scalar) × IsSession parsers (get_attrib p "spid") v
    × (reported r
        ≡ ok (v ∷ scalar (get_attrib p "loginname") ∷ scalar (get_attrib p "clientapp") ∷ []))

-- The row reports the first of the processes that is on the list, or no victim if none is.
abbrev pub IsReported : Parsers → List String → List Element → Row → Type 0
IsReported parsers victim_ids processes r =
    (All (λ p. ¬ IsOn victim_ids p) processes × (reported r ≡ ok (null ∷ null ∷ null ∷ [])))
    ⊎ ((before : List Element) × (p : Element) × (after : List Element) × (processes
          ≡ before ++ p ∷ after)
        × All (λ q. ¬ IsOn victim_ids q) before
        × IsOn victim_ids p
        × Reports parsers p r)

any-In : (ids : List String) (i : String) → any (λ j. j == i) ids ≡ true → In i ids
any-In [] i h = absurd (cc)
any-In (j ∷ ids) i h = elim (Bool-cases (j == i)) [
  | inl same ↦ inl (sym ((eq_iff j i).0 same))
  | inr other ↦ inr (any-In ids i (rw other at h))
]

any-not_In : (ids : List String) (i : String) → any (λ j. j == i) ids ≡ false → ¬ In i ids
any-not_In [] i h on = on
any-not_In (j ∷ ids) i h on =
    let (this, others) = or-eq-false (j == i) _ h in
    elim on [
      | inl same ↦ let reflexive = eq_refl i in absurd (cc)
      | inr later ↦ any-not_In ids i others later
    ]

is_victim-IsOn : (ids : List String) (p : Element) → is_victim ids p ≡ true → IsOn ids p
is_victim-IsOn ids p h = elim (Option-cases (get_attrib p "id")) [
  | inl missing ↦ let bad = rw (is_victim, missing) at h in absurd (cc)
  | inr (i, given) ↦ (i, given, any-In ids i (rw (is_victim, given) at h))
]

is_victim-not_IsOn : (ids : List String) (p : Element) → is_victim ids p ≡ false → ¬ IsOn ids p
is_victim-not_IsOn ids p h (i, given, on) = any-not_In ids i (rw (is_victim, given) at h) on

attrib_item-some :
    (el : Element) (k v : String) → attrib_item el k ≡ ok v → get_attrib el k ≡ some v
attrib_item-some el k v h = elim (Option-cases (get_attrib el k)) [
  | inl missing ↦ let bad = rw (attrib_item, missing) at h in absurd (cc)
  | inr (u, given) ↦ given ∙ ap some (ok_inj (rw (attrib_item, given) at h))
]

victim_ids-map :
    (els : List Element) (ids : List String)
    → traverse (λ v. attrib_item v "id") els ≡ ok ids
    → map (λ v. get_attrib v "id") els ≡ map some ids
victim_ids-map [] ids h = ap (map some) (ok_inj h)
victim_ids-map (el ∷ els) ids h =
    let (i, e1, h1) = >>=-eq-ok (attrib_item el "id") _ h in
    let (rest, e2, h2) = >>=-eq-ok (traverse (λ v. attrib_item v "id") els) _ h1 in
    ap₂ (λ (x : Option String) (xs : List (Option String)). x ∷ xs) (attrib_item-some el "id" i e1)
      (victim_ids-map els rest e2)
    ∙ ap (map some) (ok_inj h2)

session_id-IsSession :
    (parsers : Parsers) (p : Element) (n : Option ℤ)
    → session_id parsers p ≡ ok n
    → IsSession parsers (get_attrib p "spid") (number n)
session_id-IsSession parsers p n h = elim (Option-cases (get_attrib p "spid")) [
  | inl missing ↦ rw missing (sym (ap number (ok_inj (rw (session_id, missing) at h))))
  | inr (s, given) ↦ elim (Bool-cases (s == "")) [
    | inl empty ↦
        rw given (
          inl
            ((eq_iff s "").0 empty, sym (ap number (ok_inj (rw (session_id, given, empty) at h)))))
    | inr other ↦
        let (m, e, h1) = >>=-eq-ok (parsers.to_int s) _ (rw (session_id, given, other) at h) in
        rw given (
          inr (
            λ same. let full = ap (λ x. x == "") same in absurd (cc),
            (m, e, sym (ap number (ok_inj h1))),
          ))
  ]
]

module _ (parsers : Parsers) (ids : List String) (r : Row) where
  victim_of-IsReported :
      (processes : List Element) (fields : Option ℤ × (Option String × Option String))
      → victim_of parsers (victim ids processes) ≡ ok fields
      → reported r ≡ ok (number fields.0 ∷ scalar fields.1.0 ∷ scalar fields.1.1 ∷ [])
      → IsReported parsers ids processes r
  unfolding victim
  victim_of-IsReported [] fields h says = inl (
    tt,
    subst
        (λ (f : Option ℤ × (Option String × Option String)).
          reported r ≡ ok (number f.0 ∷ scalar f.1.0 ∷ scalar f.1.1 ∷ []))
        (sym (ok_inj h)) says,
  )
  victim_of-IsReported (p ∷ processes) fields h says = elim (Bool-cases (is_victim ids p)) [
    | inl chosen ↦
        let (n, e, h1) = >>=-eq-ok (session_id parsers p) _ (rw chosen at h) in
        inr (
          [],
          p,
          processes,
          refl,
          tt,
          is_victim-IsOn ids p chosen,
          (
            number n,
            session_id-IsSession parsers p n e,
            subst
                (λ (f : Option ℤ × (Option String × Option String)).
                  reported r ≡ ok (number f.0 ∷ scalar f.1.0 ∷ scalar f.1.1 ∷ []))
                (sym (ok_inj h1)) says,
          ),
        )
    | inr passed ↦
        let no = is_victim-not_IsOn ids p passed in
        elim (victim_of-IsReported processes fields (rw passed at h) says) [
          | inl (spared, nothing_said) ↦ inl ((no, spared), nothing_said)
          | inr (before, q, after, e, spared, on, reports) ↦ inr (
            p ∷ before,
            q,
            after,
            ap (λ (qs : List Element). p ∷ qs) e,
            (no, spared),
            on,
            reports,
          )
        ]
  ]

-- Where a deadlock report parses, the row of it says of the victim: the processes in the graph are
-- some that are not on the victim list, and then one that is, whose session, login and program the
-- row has, NULL where they are missing; or none of them is on the list, and the three are NULL.
pub parse_one_deadlock-IsReported :
    (parsers : Parsers) (ctx : Context) (event_el : Element) (d : Deadlock)
    → parse_one_deadlock parsers event_el ≡ ok d
    → (deadlock : Element) × (victim_ids : List String) × (find_first
          ("data" ∷ "value" ∷ "deadlock" ∷ [])
          event_el
        ≡ some deadlock)
      × (map (λ v. get_attrib v "id") (findall ("victim-list" ∷ "victimProcess" ∷ []) deadlock)
          ≡ map some victim_ids)
      × IsReported parsers victim_ids
          (findall ("process-list" ∷ "process" ∷ []) deadlock)
          (row_of ctx d)
unfolding parse_one_deadlock
parse_one_deadlock-IsReported parsers ctx event_el d h =
    let (stamp, e1, h1) = >>=-eq-ok (attrib_item event_el "timestamp") _ h in
    let (timestamp, e2, h2) = >>=-eq-ok (parsers.fromisoformat (replace 90 "+00:00" stamp)) _ h1 in
    elim (Option-cases (find_first ("data" ∷ "value" ∷ "deadlock" ∷ []) event_el)) [
      | inl missing ↦ let bad = rw missing at h2 in absurd (cc)
      | inr (graph, found) ↦
          let (ids, e3, h3) =
            >>=-eq-ok
              (traverse (λ vp. attrib_item vp "id")
                (findall ("victim-list" ∷ "victimProcess" ∷ []) graph))
              _ (rw found at h2) in
          let processes = findall ("process-list" ∷ "process" ∷ []) graph in
          let (fields, e4, h4) = >>=-eq-ok (victim_of parsers (victim ids processes)) _ h3 in
          (
            graph,
            ids,
            found,
            victim_ids-map (findall ("victim-list" ∷ "victimProcess" ∷ []) graph) ids e3,
            victim_of-IsReported parsers ids (row_of ctx d) processes fields e4
                (sym (ap (λ x. reported (row_of ctx x)) (ok_inj h4))),
          )
    ]
