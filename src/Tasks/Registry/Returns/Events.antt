-- ===== src/Tasks/Registry/Returns/Events.antt =====
-- The transform of src/collectors/workload.py: it returns where the timestamps have an offset.
use sql_observability.Base.{
  ◌⊎◌, true, ◌==◌, contains, subst, eq_iff, Option-cases, ◌≡◌, refl, ℕ, Option, none, some, String,
  List, [], ◌∷◌, All, map, Bool-cases, inl, inr, ltb,
}
use sql_observability.Py.Errors.{ok, traverse}
use sql_observability.Py.Datetime.{Datetime, aware, naive, after, earliest}
use sql_observability.Py.Xml.{Parsers, Element, get_attrib, attrib_item, findall, findtext}
use sql_observability.Py.Text.{replace}
use sql_observability.Base.Int.{ℤ, pos}
use sql_observability.Py.Row.{Row, Scalar, item}
use sql_observability.Tasks.Context.{Context}
use sql_observability.Tasks.Workload

-- No value, an empty text, or the numeral of an integer.
abbrev pub IsNumeric : Parsers → Option String → Type 0
IsNumeric p none = Unit
IsNumeric p (some s) = ((s == "") ≡ true) ⊎ ((n : ℤ) × (p.to_int s ≡ ok n))

-- The time of the element, with an offset; a `Z` stands for the offset zero.
abbrev pub IsTimed : Parsers → Element → Type 0
IsTimed p el =
    (stamp : String) × (at : ℕ) × (get_attrib el "timestamp" ≡ some stamp)
    × (p.fromisoformat (replace 90 "+00:00" stamp) ≡ ok (aware at))

-- A child `data` or `action`, with a name, and of a value that is right for the name.
abbrev IsField : (String → Option String → Type 0) → Element → Type 0
IsField Q el = (name : String) × (get_attrib el "name" ≡ some name) × Q name (findtext "value" el)

abbrev IsMeasure : Parsers → String → Option String → Type 0
IsMeasure p name v =
    contains ("cpu_time" ∷ "duration" ∷ "logical_reads" ∷ "writes" ∷ "row_count" ∷ []) name ≡ true
    → IsNumeric p v

-- A captured event: timed, with named fields, and numbers where there are measures.
abbrev pub IsEvent : Parsers → Row → Type 0
IsEvent p r =
    (xml : String) × (root : Element) × (item r "event_data" ≡ ok (Scalar.text xml))
    × (p.fromstring xml ≡ ok root)
    × IsTimed p root
    × All (IsField (IsMeasure p)) (findall ("data" ∷ []) root)
    × All (IsField (λ name v. Unit)) (findall ("action" ∷ []) root)

abbrev HasOffset : Workload.Event → Type 0
HasOffset e = (at : ℕ) × (e.timestamp ≡ aware at)

pub attrib_item-returns :
    (el : Element) (k v : String) → get_attrib el k ≡ some v → attrib_item el k ≡ ok v
attrib_item-returns el k v h = rw (attrib_item, h) refl

module _ (Q : String → Option String → Type 0) where
  named_values-returns :
      (done : List (String × Option String)) (els : List Element)
      → All (IsField Q) els
      → ((k : String) → Q k (Workload.get k done))
      → (data' : List (String × Option String)) × (Workload.named_values done els ≡ ok data')
        × ((k : String) → Q k (Workload.get k data'))
  named_values-returns done [] h right = (done, refl, right)
  named_values-returns done (el ∷ els) h right =
      let (name, named, value) = h.0 in
      let (data', e, all_right) =
        named_values-returns ((name, findtext "value" el) ∷ done) els h.1 (λ k.
          elim (Bool-cases (name == k)) [
            | inl same ↦
                rw same (subst (λ j. Q j (findtext "value" el)) ((eq_iff name k).0 same) value)
            | inr other ↦ rw other (right k)
          ]) in
      (data', rw (attrib_item-returns el "name" name named) e, all_right)

number-returns :
    (p : Parsers) (k : String) (data' : List (String × Option String))
    → IsNumeric p (Workload.get k data')
    → (n : ℤ) × (Workload.number p k data' ≡ ok n)
number-returns p k data' h = elim (Option-cases (Workload.get k data')) [
  | inl missing ↦ (pos 0, rw (Workload.number, missing) refl)
  | inr (s, given) ↦ elim (rw given at h) [
    | inl empty ↦ (pos 0, rw (Workload.number, given, empty) refl)
    | inr (n, numeral) ↦ elim (Bool-cases (s == "")) [
      | inl empty ↦ (pos 0, rw (Workload.number, given, empty) refl)
      | inr other ↦ (n, rw (Workload.number, given, other) numeral)
    ]
  ]
]

parse_row-returns :
    (p : Parsers) (r : Row)
    → IsEvent p r
    → (e : Workload.Event) × (Workload.parse_row p r ≡ ok e) × HasOffset e
unfolding Workload.parse_row Workload.parse_xe_event
parse_row-returns p r
      (xml, root, at_column, parsed, (stamp, at, stamped, is_time), measures, names) =
    let (data', e1, numbers) =
      named_values-returns (IsMeasure p) [] (findall ("data" ∷ []) root) measures (λ k h. tt) in
    let (actions, e2, _) =
      named_values-returns (λ name v. Unit) [] (findall ("action" ∷ []) root) names (λ k. tt) in
    let (cpu, n1) = number-returns p "cpu_time" data' (numbers "cpu_time" refl) in
    let (duration, n2) = number-returns p "duration" data' (numbers "duration" refl) in
    let (reads, n3) = number-returns p "logical_reads" data' (numbers "logical_reads" refl) in
    let (writes, n4) = number-returns p "writes" data' (numbers "writes" refl) in
    let (rows, n5) = number-returns p "row_count" data' (numbers "row_count" refl) in
    let s = attrib_item-returns root "timestamp" stamp stamped in
    (
      record {
        timestamp = aware at;
        cpu_time = cpu;
        duration = duration;
        logical_reads = reads;
        writes = writes;
        row_count = rows;
        key = record {
          login_name = Workload.scalar (Workload.get "server_principal_name" actions);
          program_name = Workload.scalar (Workload.get "client_app_name" actions);
          host_name = Workload.scalar (Workload.get "client_hostname" actions);
          database_name = Workload.scalar (Workload.get "database_name" actions);
        };
      },
      rw (at_column, parsed, e1, e2, s, is_time, n1, n2, n3, n4, n5) refl,
      (at, refl),
    )

parse-returns :
    (p : Parsers) (rows : List Row)
    → All (IsEvent p) rows
    → (events : List Workload.Event) × (traverse (Workload.parse_row p) rows ≡ ok events)
      × All HasOffset events
parse-returns p [] h = ([], refl, tt)
parse-returns p (r ∷ rows) h =
    let (e, parsed, stamp) = parse_row-returns p r h.0 in
    let (events, e2, offsets) = parse-returns p rows h.1 in
    (e ∷ events, rw (parsed, e2) refl, (stamp, offsets))

newer-returns :
    (wm : ℕ) (events : List Workload.Event)
    → All HasOffset events
    → (recent : List Workload.Event) × (Workload.newer (aware wm) events ≡ ok recent)
      × All HasOffset recent
unfolding Workload.newer after
newer-returns wm [] h = ([], refl, tt)
newer-returns wm (e ∷ events) h =
    let (at, stamp) = h.0 in
    let (rest, e2, offsets) = newer-returns wm events h.1 in
    elim (Bool-cases (ltb wm at)) [
      | inl late ↦ (e ∷ rest, rw (stamp, e2, late) refl, (h.0, offsets))
      | inr early ↦ (rest, rw (stamp, e2, early) refl, offsets)
    ]

earliest-returns :
    (at : ℕ) (events : List Workload.Event)
    → All HasOffset events
    → (start : Datetime) × (earliest (aware at) (map (λ d. d.timestamp) events) ≡ ok start)
unfolding earliest after
earliest-returns at [] h = (aware at, refl)
earliest-returns at (e ∷ events) h =
    let (t, stamp) = h.0 in
    elim (Bool-cases (ltb t at)) [
      | inl late ↦ let (start, e2) = earliest-returns t events h.1 in (start, rw (stamp, late) e2)
      | inr early ↦
          let (start, e2) = earliest-returns at events h.1 in (start, rw (stamp, early) e2)
    ]

-- The watermark has an offset, if there is one.
abbrev pub IsComparable : Option Datetime → Type 0
IsComparable none = Unit
IsComparable (some (aware t)) = Unit
IsComparable (some (naive t)) = ⊥

new_events-returns :
    (watermark : Option Datetime) (events : List Workload.Event)
    → IsComparable watermark
    → All HasOffset events
    → (recent : List Workload.Event) × (Workload.new_events watermark events ≡ ok recent)
      × All HasOffset recent
unfolding Workload.new_events
new_events-returns none events w h = (events, refl, h)
new_events-returns (some (aware wm)) events w h = newer-returns wm events h
new_events-returns (some (naive wm)) events w h = absurd w

window_start-returns :
    (watermark : Option Datetime) (e : Workload.Event) (events : List Workload.Event)
    → HasOffset e
    → All HasOffset events
    → (start : Datetime) × (Workload.window_start watermark e events ≡ ok start)
unfolding Workload.window_start
window_start-returns (some wm) e events (at, stamp) h = (wm, refl)
window_start-returns none e events (at, stamp) h =
    let (start, found) = earliest-returns at events h in (start, rw stamp found)

aggregate-returns :
    (ctx : Context) (events : List Workload.Event)
    → All HasOffset events
    → (out : List Row) × (Workload.aggregate ctx events ≡ ok out)
unfolding Workload.aggregate
aggregate-returns ctx [] h = ([], refl)
aggregate-returns ctx (e ∷ events) h =
    let (start, found) = window_start-returns ctx.watermark e events h.0 h.1 in
    (map (Workload.row_of ctx start) (Workload.tally (e ∷ events)), rw found refl)

pub workload-returns :
    (p : Parsers) (ctx : Context) (rows : List Row)
    → IsComparable ctx.watermark
    → All (IsEvent p) rows
    → (out : List Row) × (Workload.transform p ctx rows ≡ ok out)
unfolding Workload.transform
workload-returns p ctx rows w h =
    let (events, e, offsets) = parse-returns p rows h in
    let (recent, e2, late) = new_events-returns ctx.watermark events w offsets in
    let (out, e3) = aggregate-returns ctx recent late in (out, rw (e, e2) e3)
