-- ===== src/Tasks/Deadlocks.antt =====
-- src/collectors/deadlocks.py: its columns, its MERGE, the parser of the ring buffer and its
-- `transform`.
pub mod Victim
pub mod Reported
pub mod Watermark
use sql_observability.Collector.{Collector}
use sql_observability.Collector.Fetch.{fetch_once}
use sql_observability.Base.{
  ◌≡◌, refl, ℕ, String, Bool, true, false, not, Option, none, some, List, [], ◌∷◌, All, any, map,
  keep, length, arith, if◌then◌else◌, ◌==◌, ◌<>◌, ◌&&◌, subst,
}
use sql_observability.Base.Int.{ℤ, pos}
use sql_observability.Py.Errors.{
  ok_inj, Result, ok, err, type_error, attribute_error, ◌>>=◌, traverse, >>=-eq-ok,
}
use sql_observability.Py.Text.{replace, join}
use sql_observability.Py.Datetime.{Datetime, after}
use sql_observability.Py.Xml.{
  Element, Parsers, tag, all_children, tagged, below, get_attrib, attrib_item, findall, find_first,
}
use sql_observability.Py.Row.{Row, Scalar, null, int, text, time, item, keys}
use sql_observability.Db.Server.{Merge, column}
use sql_observability.Tasks.Context.{Context}

-- `_SOURCE_QUERY`
unfoldable pub source_query : String
source_query =
    "\n" <> "SELECT CAST(t.target_data AS NVARCHAR(MAX)) AS target_xml\n"
    <> "FROM sys.dm_xe_session_targets t\n"
    <> "JOIN sys.dm_xe_sessions s ON s.address = t.event_session_address\n"
    <> "WHERE s.name = 'system_health' AND t.target_name = 'ring_buffer';\n"

-- the columns that the query selects
abbrev pub selected : List String
selected = "target_xml" ∷ []

abbrev pub columns : List String
columns =
    "source_instance" ∷ "event_time_utc" ∷ "victim_session_id" ∷ "victim_login" ∷ "victim_program"
    ∷ "process_count" ∷ "resource_summary" ∷ "deadlock_graph_xml" ∷ []

abbrev pub upsert : Merge
upsert = record {
  target = "dbo.fact_deadlock";
  source =
      "source_instance" ∷ "event_time_utc" ∷ "victim_session_id" ∷ "victim_login" ∷ "victim_program"
      ∷ "process_count" ∷ "resource_summary" ∷ "deadlock_graph_xml" ∷ [];
  on = column "source_instance" ∷ column "event_time_utc" ∷ [];
  update =
      "victim_session_id" ∷ "victim_login" ∷ "victim_program" ∷ "process_count" ∷ "resource_summary"
      ∷ "deadlock_graph_xml" ∷ [];
  insert =
      "source_instance" ∷ "event_time_utc" ∷ "victim_session_id" ∷ "victim_login" ∷ "victim_program"
      ∷ "process_count" ∷ "resource_summary" ∷ "deadlock_graph_xml" ∷ [];
}

pub record Deadlock : Type 0 where
  pub event_time_utc : Datetime
  pub victim_session_id : Option ℤ
  pub victim_login : Option String
  pub victim_program : Option String
  pub process_count : ℕ
  pub resource_summary : Option String
  pub deadlock_graph_xml : String

-- `p.attrib.get("id") in victim_ids`
abbrev pub is_victim : List String → Element → Bool
is_victim victim_ids p = elim (get_attrib p "id") [
  | none ↦ false
  | some i ↦ any (λ j. j == i) victim_ids
]

-- The process at which the loop breaks.
unfoldable pub victim : List String → List Element → Option Element
victim victim_ids [] = none
victim victim_ids (p ∷ processes) =
    let rest = victim victim_ids processes in if is_victim victim_ids p then some p else rest

-- `int(spid) if spid else None`
abbrev pub session_id : Parsers → Element → Result (Option ℤ)
session_id parsers p = elim (get_attrib p "spid") [
  | none ↦ ok none
  | some s ↦ if s == "" then ok none else (parsers.to_int s >>= λ n. ok (some n))
]

abbrev pub resource : Element → String
resource res = elim (get_attrib res "objectname") [
  | none ↦ tag res
  | some name ↦ if name == "" then tag res else tag res <> ":" <> name
]

-- `", ".join(resources) if resources else None`
abbrev pub summary : List String → Option String
summary [] = none
summary (r ∷ rs) = some (join ", " (r ∷ rs))

abbrev pub victim_of :
    Parsers → Option Element → Result (Option ℤ × (Option String × Option String))
victim_of parsers none = ok (none, (none, none))
victim_of parsers (some p) = do
  id' ← session_id parsers p
  ok (id', (get_attrib p "loginname", get_attrib p "clientapp"))

unfoldable pub parse_one_deadlock : Parsers → Element → Result Deadlock
unfolding replace join victim
parse_one_deadlock parsers event_el = do
  stamp ← attrib_item event_el "timestamp"
  timestamp ← parsers.fromisoformat (replace 90 "+00:00" stamp)
  deadlock ← elim (find_first ("data" ∷ "value" ∷ "deadlock" ∷ []) event_el) [
    | none ↦ err attribute_error
    | some d ↦ ok d
  ]
  victim_ids ←
      traverse (λ vp. attrib_item vp "id") (findall ("victim-list" ∷ "victimProcess" ∷ []) deadlock)
  fields ←
      victim_of parsers (victim victim_ids (findall ("process-list" ∷ "process" ∷ []) deadlock))
  ok (record {
    event_time_utc = timestamp;
    victim_session_id = fields.0;
    victim_login = fields.1.0;
    victim_program = fields.1.1;
    process_count = length (findall ("process-list" ∷ "process" ∷ []) deadlock);
    resource_summary =
        summary (map resource (all_children (findall ("resource-list" ∷ []) deadlock)));
    deadlock_graph_xml = parsers.tostring deadlock;
  })

-- `.//event[@name='xml_deadlock_report']`
abbrev pub is_report : Element → Bool
is_report e =
    tag e == "event"
    && elim (get_attrib e "name") [ none ↦ false | some n ↦ n == "xml_deadlock_report" ]

unfoldable pub parse_deadlock_events : Parsers → String → Result (List Deadlock)
unfolding parse_one_deadlock below
parse_deadlock_events parsers target_xml = do
  root ← parsers.fromstring target_xml
  traverse (parse_one_deadlock parsers) (keep is_report (below root))

-- `[e for e in events if e["event_time_utc"] > watermark]`
unfoldable pub newer : Datetime → List Deadlock → Result (List Deadlock)
unfolding after
newer watermark [] = ok []
newer watermark (e ∷ events) = do
  late ← after e.event_time_utc watermark
  rest ← newer watermark events
  ok (if late then e ∷ rest else rest)

unfoldable pub new_events : Option Datetime → List Deadlock → Result (List Deadlock)
unfolding newer
new_events none events = ok events
new_events (some watermark) events = newer watermark events

abbrev pub scalar : Option String → Scalar
scalar none = null
scalar (some s) = text s

abbrev pub number : Option ℤ → Scalar
number none = null
number (some n) = int n

abbrev pub row_of : Context → Deadlock → Row
row_of ctx e =
    ("source_instance", text ctx.source_instance)
    ∷ ("event_time_utc", time e.event_time_utc)
    ∷ ("victim_session_id", number e.victim_session_id)
    ∷ ("victim_login", scalar e.victim_login)
    ∷ ("victim_program", scalar e.victim_program)
    ∷ ("process_count", int (pos e.process_count))
    ∷ ("resource_summary", scalar e.resource_summary)
    ∷ ("deadlock_graph_xml", text e.deadlock_graph_xml)
    ∷ []

unfoldable pub transform : Parsers → Context → List Row → Result (List Row)
unfolding parse_deadlock_events new_events
transform parsers ctx [] = ok []
transform parsers ctx (r ∷ rows) = do
  target ← item r "target_xml"
  events ← elim target [ text s ↦ parse_deadlock_events parsers s | _ ↦ err type_error ]
  recent ← new_events ctx.watermark events
  ok (map (row_of ctx) recent)

-- The class.
abbrev pub collector : Parsers → Context → Collector
collector p ctx = record {
  task_name = "deadlocks";
  fetch_rows = fetch_once (ok source_query);
  transform = transform p ctx;
  columns = columns;
  upsert = upsert;
}
