-- ===== src/Tasks/Workload.antt =====
-- src/collectors/workload.py: its columns, its MERGE, the parser of an event and its `transform`.
-- Sums of milliseconds are kept exactly, in thousandths; the rounding of floats is not modelled.
pub mod Groups
pub mod Window
pub mod Glob
use sql_observability.Py.Yaml.{Yaml, Fields, get_in, get_or}
use sql_observability.Collector.{Collector}
use sql_observability.Collector.Fetch.{fetch_once}
use sql_observability.Base.{
  ◌≡◌, refl, ℕ, ◌+◌, String, Bool, true, false, Option, none, some, List, [], ◌∷◌, All, map, length,
  arith, if◌then◌else◌, ◌==◌, subst, Bool-cases, inl, inr, ◌<>◌,
}
use sql_observability.Base.Int.{ℤ, pos, ◌+ℤ◌}
use sql_observability.Py.Errors.{
  ok_inj, Result, ok, err, type_error, ◌>>=◌, traverse, >>=-eq-ok, attribute_error,
}
use sql_observability.Py.Text.{replace}
use sql_observability.Py.Datetime.{Datetime, aware, naive, after, earliest}
use sql_observability.Py.Xml.{Element, Parsers, attrib_item, findall, findtext, look_up}
use sql_observability.Py.Row.{Row, Scalar, null, int, text, time, millis, item, keys}
use sql_observability.Db.Server.{Merge, column, hash_of}
use sql_observability.Tasks.Context.{Context}
use sql_observability.Tasks.Mapped.{length-traverse}
use sql_observability.Tasks.Grouping.{
  Attribution, same, group, total, value, has_key, IsUnrepeated, group-value-none,
  group-IsUnrepeated, sum, sum-group,
}

-- `source_query`: the glob of the configuration as a text literal of T-SQL
unfoldable pub source_query : Fields → Result String
unfolding replace
source_query config = do
  glob ←
      get_in (get_or config "workload" (Yaml.dict Fields.end)) "xe_file_glob"
        (Yaml.text "Observability_Workload*.xel")
  elim glob [
    | Yaml.text s ↦ ok (
        "SELECT event_data FROM sys.fn_xe_file_target_read_file(N'"
        <> replace 39 "''" s
        <> "', NULL, NULL, NULL);")
    | _ ↦ err attribute_error
  ]

-- the columns that the query selects
abbrev pub selected : List String
selected = "event_data" ∷ []

abbrev pub columns : List String
columns =
    "source_instance" ∷ "window_start_utc" ∷ "login_name" ∷ "program_name" ∷ "host_name"
    ∷ "database_name" ∷ "exec_count" ∷ "total_cpu_ms" ∷ "total_duration_ms" ∷ "total_logical_reads"
    ∷ "total_writes" ∷ "total_rows" ∷ []

abbrev pub upsert : Merge
upsert = record {
  target = "dbo.fact_workload";
  source =
      "source_instance" ∷ "window_start_utc" ∷ "login_name" ∷ "program_name" ∷ "host_name"
      ∷ "database_name" ∷ "exec_count" ∷ "total_cpu_ms" ∷ "total_duration_ms"
      ∷ "total_logical_reads" ∷ "total_writes" ∷ "total_rows" ∷ [];
  on =
      column "source_instance"
      ∷ column "window_start_utc"
      ∷ hash_of ("login_name" ∷ "program_name" ∷ "host_name" ∷ "database_name" ∷ [])
      ∷ [];
  update =
      "exec_count" ∷ "total_cpu_ms" ∷ "total_duration_ms" ∷ "total_logical_reads" ∷ "total_writes"
      ∷ "total_rows" ∷ [];
  insert =
      "source_instance" ∷ "window_start_utc" ∷ "login_name" ∷ "program_name" ∷ "host_name"
      ∷ "database_name" ∷ "exec_count" ∷ "total_cpu_ms" ∷ "total_duration_ms"
      ∷ "total_logical_reads" ∷ "total_writes" ∷ "total_rows" ∷ [];
}

pub record Event : Type 0 where
  pub timestamp : Datetime
  pub cpu_time : ℤ
  pub duration : ℤ
  pub logical_reads : ℤ
  pub writes : ℤ
  pub row_count : ℤ
  pub key : Attribution

-- `{el.attrib["name"]: el.findtext("value") for el in els}`, the last entry of a name first
abbrev pub named_values :
    List (String × Option String) → List Element → Result (List (String × Option String))
named_values done [] = ok done
named_values done (el ∷ els) = do
  name ← attrib_item el "name"
  named_values ((name, findtext "value" el) ∷ done) els

-- `d.get(k)`, which is None also where the value is None
abbrev pub get : String → List (String × Option String) → Option String
get k [] = none
get k ((j, v) ∷ fields) = if j == k then v else get k fields

abbrev pub scalar : Option String → Scalar
scalar none = null
scalar (some s) = text s

-- `int(data.get(k) or 0)`
abbrev pub number : Parsers → String → List (String × Option String) → Result ℤ
number p k data' = elim (get k data') [
  | none ↦ ok (pos 0)
  | some s ↦ if s == "" then ok (pos 0) else p.to_int s
]

unfoldable pub parse_xe_event : Parsers → String → Result Event
unfolding replace
parse_xe_event p event_data_xml = do
  root ← p.fromstring event_data_xml
  data' ← named_values [] (findall ("data" ∷ []) root)
  actions ← named_values [] (findall ("action" ∷ []) root)
  stamp ← attrib_item root "timestamp"
  timestamp ← p.fromisoformat (replace 90 "+00:00" stamp)
  cpu_time ← number p "cpu_time" data'
  duration ← number p "duration" data'
  logical_reads ← number p "logical_reads" data'
  writes ← number p "writes" data'
  row_count ← number p "row_count" data'
  ok (record {
    timestamp = timestamp;
    cpu_time = cpu_time;
    duration = duration;
    logical_reads = logical_reads;
    writes = writes;
    row_count = row_count;
    key = record {
      login_name = scalar (get "server_principal_name" actions);
      program_name = scalar (get "client_app_name" actions);
      host_name = scalar (get "client_hostname" actions);
      database_name = scalar (get "database_name" actions);
    };
  })

-- `parse_xe_event(r["event_data"])`: the column is a text or NULL
unfoldable pub parse_row : Parsers → Row → Result Event
unfolding parse_xe_event
parse_row p r = do
  event_data ← item r "event_data"
  elim event_data [ text s ↦ parse_xe_event p s | _ ↦ err type_error ]

-- `[e for e in events if e["timestamp"] > watermark]`
unfoldable pub newer : Datetime → List Event → Result (List Event)
unfolding after
newer watermark [] = ok []
newer watermark (e ∷ events) = do
  late ← after e.timestamp watermark
  rest ← newer watermark events
  ok (if late then e ∷ rest else rest)

unfoldable pub new_events : Option Datetime → List Event → Result (List Event)
unfolding newer
new_events none events = ok events
new_events (some watermark) events = newer watermark events

unfoldable pub window_start : Option Datetime → Event → List Event → Result Datetime
window_start (some watermark) e events = ok watermark
window_start none e events = earliest e.timestamp (map (λ d. d.timestamp) events)

-- The value of a group; the sums of milliseconds are in thousandths.
pub record Usage : Type 0 where
  pub exec_count : ℕ
  pub total_cpu_ms : ℤ
  pub total_duration_ms : ℤ
  pub total_logical_reads : ℤ
  pub total_writes : ℤ
  pub total_rows : ℤ

abbrev pub no_usage : Usage
no_usage = record {
  exec_count = 0;
  total_cpu_ms = pos 0;
  total_duration_ms = pos 0;
  total_logical_reads = pos 0;
  total_writes = pos 0;
  total_rows = pos 0;
}

abbrev pub add_event : Usage → Event → Usage
add_event g e = record {
  exec_count = g.exec_count + 1;
  total_cpu_ms = g.total_cpu_ms +ℤ e.cpu_time;
  total_duration_ms = g.total_duration_ms +ℤ e.duration;
  total_logical_reads = g.total_logical_reads +ℤ e.logical_reads;
  total_writes = g.total_writes +ℤ e.writes;
  total_rows = g.total_rows +ℤ e.row_count;
}

unfoldable pub tally : List Event → List (Attribution × Usage)
tally events = group add_event no_usage (map (λ e. (e.key, e)) events) []

-- `{"source_instance": ..., **agg}`
abbrev pub row_of : Context → Datetime → Attribution × Usage → Row
row_of ctx start (key, agg) =
    ("source_instance", text ctx.source_instance)
    ∷ ("window_start_utc", time start)
    ∷ ("login_name", key.login_name)
    ∷ ("program_name", key.program_name)
    ∷ ("host_name", key.host_name)
    ∷ ("database_name", key.database_name)
    ∷ ("exec_count", int (pos agg.exec_count))
    ∷ ("total_cpu_ms", millis agg.total_cpu_ms)
    ∷ ("total_duration_ms", millis agg.total_duration_ms)
    ∷ ("total_logical_reads", int agg.total_logical_reads)
    ∷ ("total_writes", int agg.total_writes)
    ∷ ("total_rows", int agg.total_rows)
    ∷ []

-- `transform` past the parser.
unfoldable pub aggregate : Context → List Event → Result (List Row)
unfolding window_start tally
aggregate ctx [] = ok []
aggregate ctx (e ∷ events) = do
  start ← window_start ctx.watermark e events
  ok (map (row_of ctx start) (tally (e ∷ events)))

unfoldable pub transform : Parsers → Context → List Row → Result (List Row)
unfolding parse_row new_events aggregate
transform p ctx rows = do
  events ← traverse (parse_row p) rows
  recent ← new_events ctx.watermark events
  aggregate ctx recent

-- The class.
abbrev pub collector : Parsers → Context → Collector
collector p ctx = record {
  task_name = "workload";
  fetch_rows = fetch_once (source_query ctx.config);
  transform = transform p ctx;
  columns = columns;
  upsert = upsert;
}
