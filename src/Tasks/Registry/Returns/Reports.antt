-- ===== src/Tasks/Registry/Returns/Reports.antt =====
-- The transform of src/collectors/deadlocks.py: it returns where the reports are well formed.
use sql_observability.Base.{
  length, ◌==◌, Option-cases, keep, ◌≡◌, refl, Option, none, some, String, List, [], ◌∷◌, All, map,
  Bool-cases, inl, inr,
}
use sql_observability.Py.Errors.{ok, traverse}
use sql_observability.Py.Datetime.{Datetime, aware, naive}
use sql_observability.Py.Xml.{
  Parsers, Element, get_attrib, attrib_item, findall, find_first, all_children, below,
}
use sql_observability.Base.Int.{ℤ}
use sql_observability.Py.Row.{Row, Scalar, item}
use sql_observability.Tasks.Context.{Context}
use sql_observability.Tasks.Deadlocks
use sql_observability.Tasks.Deadlocks.Watermark.{IsStamped, newer-keep}
use sql_observability.Tasks.Registry.Returns.Events.{
  IsNumeric, IsTimed, attrib_item-returns, IsComparable,
}

-- A deadlock report: timed, with a graph in it, in which each victim has an id and each session
-- number that is given is one.
abbrev IsReport : Parsers → Element → Type 0
IsReport p el =
    (graph : Element) × IsTimed p el
    × (find_first ("data" ∷ "value" ∷ "deadlock" ∷ []) el ≡ some graph)
    × All (λ v. (i : String) × (get_attrib v "id" ≡ some i))
        (findall ("victim-list" ∷ "victimProcess" ∷ []) graph)
    × All (λ q. IsNumeric p (get_attrib q "spid")) (findall ("process-list" ∷ "process" ∷ []) graph)

-- A ring buffer of such reports.
abbrev pub IsBuffer : Parsers → Row → Type 0
IsBuffer p r =
    (xml : String) × (root : Element) × (item r "target_xml" ≡ ok (Scalar.text xml))
    × (p.fromstring xml ≡ ok root)
    × All (IsReport p) (keep Deadlocks.is_report (below root))

victim_ids-returns :
    (els : List Element)
    → All (λ v. (i : String) × (get_attrib v "id" ≡ some i)) els
    → (ids : List String) × (traverse (λ v. attrib_item v "id") els ≡ ok ids)
victim_ids-returns [] h = ([], refl)
victim_ids-returns (el ∷ els) h =
    let (i, e) = h.0 in
    let (ids, e2) = victim_ids-returns els h.1 in
    (i ∷ ids, rw (attrib_item-returns el "id" i e, e2) refl)

session_id-returns :
    (p : Parsers) (q : Element)
    → IsNumeric p (get_attrib q "spid")
    → (n : Option ℤ) × (Deadlocks.session_id p q ≡ ok n)
session_id-returns p q h = elim (Option-cases (get_attrib q "spid")) [
  | inl missing ↦ (none, rw (Deadlocks.session_id, missing) refl)
  | inr (s, given) ↦ elim (rw given at h) [
    | inl empty ↦ (none, rw (Deadlocks.session_id, given, empty) refl)
    | inr (n, numeral) ↦ elim (Bool-cases (s == "")) [
      | inl empty ↦ (none, rw (Deadlocks.session_id, given, empty) refl)
      | inr other ↦ (some n, rw (Deadlocks.session_id, given, other, numeral) refl)
    ]
  ]
]

victim_of-returns :
    (p : Parsers) (ids : List String) (processes : List Element)
    → All (λ q. IsNumeric p (get_attrib q "spid")) processes
    → (fields : Option ℤ × (Option String × Option String)) × (Deadlocks.victim_of p
          (Deadlocks.victim ids processes)
        ≡ ok fields)
unfolding Deadlocks.victim
victim_of-returns p ids [] h = ((none, (none, none)), refl)
victim_of-returns p ids (q ∷ processes) h =
    let (n, numbered) = session_id-returns p q h.0 in
    let (fields, e) = victim_of-returns p ids processes h.1 in
    elim (Bool-cases (Deadlocks.is_victim ids q)) [
      | inl chosen ↦
          ((n, (get_attrib q "loginname", get_attrib q "clientapp")), rw (chosen, numbered) refl)
      | inr passed ↦ (fields, rw passed e)
    ]

report-returns :
    (p : Parsers) (el : Element)
    → IsReport p el
    → (d : Deadlocks.Deadlock) × (Deadlocks.parse_one_deadlock p el ≡ ok d) × IsStamped d
unfolding Deadlocks.parse_one_deadlock
report-returns p el (graph, (stamp, at, stamped, is_time), found, named, numbered) =
    let (ids, e1) =
      victim_ids-returns (findall ("victim-list" ∷ "victimProcess" ∷ []) graph) named in
    let (fields, e2) =
      victim_of-returns p ids (findall ("process-list" ∷ "process" ∷ []) graph) numbered in
    let s = attrib_item-returns el "timestamp" stamp stamped in
    (
      record {
        event_time_utc = aware at;
        victim_session_id = fields.0;
        victim_login = fields.1.0;
        victim_program = fields.1.1;
        process_count = length (findall ("process-list" ∷ "process" ∷ []) graph);
        resource_summary =
            Deadlocks.summary
              (map Deadlocks.resource (all_children (findall ("resource-list" ∷ []) graph)));
        deadlock_graph_xml = p.tostring graph;
      },
      rw (s, is_time, found, e1, e2) refl,
      (at, refl),
    )

reports-returns :
    (p : Parsers) (els : List Element)
    → All (IsReport p) els
    → (events : List Deadlocks.Deadlock) × (traverse (Deadlocks.parse_one_deadlock p) els
        ≡ ok events)
      × All IsStamped events
reports-returns p [] h = ([], refl, tt)
reports-returns p (el ∷ els) h =
    let (d, e, stamp) = report-returns p el h.0 in
    let (events, e2, offsets) = reports-returns p els h.1 in
    (d ∷ events, rw (e, e2) refl, (stamp, offsets))

recent-returns :
    (watermark : Option Datetime) (events : List Deadlocks.Deadlock)
    → IsComparable watermark
    → All IsStamped events
    → (recent : List Deadlocks.Deadlock) × (Deadlocks.new_events watermark events ≡ ok recent)
unfolding Deadlocks.new_events
recent-returns none events w h = (events, refl)
recent-returns (some (aware wm)) events w h = (_, newer-keep wm events h)
recent-returns (some (naive wm)) events w h = absurd w

pub deadlocks-returns :
    (p : Parsers) (ctx : Context) (rows : List Row)
    → IsComparable ctx.watermark
    → All (IsBuffer p) rows
    → (out : List Row) × (Deadlocks.transform p ctx rows ≡ ok out)
unfolding Deadlocks.transform Deadlocks.parse_deadlock_events
deadlocks-returns p ctx [] w h = ([], refl)
deadlocks-returns p ctx (r ∷ rows) w h =
    let (xml, root, at_column, parsed, reports) = h.0 in
    let (events, e, offsets) = reports-returns p (keep Deadlocks.is_report (below root)) reports in
    let (recent, e2) = recent-returns ctx.watermark events w offsets in
    (map (Deadlocks.row_of ctx) recent, rw (at_column, parsed, e, e2) refl)
