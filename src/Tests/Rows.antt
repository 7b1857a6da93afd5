-- ===== src/Tests/Rows.antt =====
-- The transforms and the statements of the collectors.
use sql_observability.Base.{
  ◌≡◌, refl, ◌≤◌, ◌⊎◌, String, Bool, true, false, Option, none, some, List, [], ◌∷◌, All, map, keep,
  length, ltb, if◌then◌else◌,
}
use sql_observability.Base.Int.{ℤ, pos}
use sql_observability.Py.Errors.{ok, err, type_error, traverse}
use sql_observability.Py.Datetime.{Datetime, aware, naive, instant}
use sql_observability.Py.Yaml.{Yaml, Items, get_or}
use sql_observability.Py.Row.{Row, Scalar, keys, item, project}
use sql_observability.Tasks.Grouping.{Attribution, total, value, has_key, sum}
use sql_observability.Tasks.Grouping
use sql_observability.Tasks.Registry.{Task, collector}
use sql_observability.Tasks.Registry.Statements.{IsFor, upsert-IsFor}
use sql_observability.Tasks.Registry.Rows.{transform-IsStorable}
use sql_observability.Collector.Success.{IsStorable}
use sql_observability.Tasks.Cpu
use sql_observability.Tasks.Waits
use sql_observability.Tasks.QueryPerf
use sql_observability.Tasks.QueryPerf.Hashes
use sql_observability.Tasks.Sessions
use sql_observability.Tasks.Workload
use sql_observability.Tasks.Workload.Groups
use sql_observability.Tasks.Workload.Window
use sql_observability.Tests.Data.{parsers, context, waits, wait_rows, stored_wait, config}

abbrev no_mark : Option Datetime
no_mark = none

waits_transformed : waits.transform wait_rows ≡ ok (stored_wait ∷ [])
unfolding Waits.transform Waits.excluded sql_observability.Py.Yaml.yaml_eq
    sql_observability.Tasks.Mapped.stamped
waits_transformed = refl

transform-IsStorable_example :
    All
      (λ r.
        (keys r ≡ (collector parsers (context none) Task.waits).columns)
        × IsStorable (collector parsers (context none) Task.waits) r)
      (stored_wait ∷ [])
transform-IsStorable_example =
    transform-IsStorable parsers (context none) Task.waits wait_rows (stored_wait ∷ [])
      waits_transformed

transform-IsKept_example :
    (exclusions : List Yaml) × (Waits.set_of
        (get_or config "wait_type_exclusions" (Yaml.list Items.nil))
      ≡ ok exclusions)
    × All (Waits.IsKept exclusions) (stored_wait ∷ [])
transform-IsKept_example =
    Waits.transform-IsKept (context none) wait_rows (stored_wait ∷ []) waits_transformed

upsert-IsFor_example :
    IsFor
      (collector parsers (context none) Task.workload).columns
      (collector parsers (context none) Task.workload).upsert
upsert-IsFor_example = upsert-IsFor parsers (context none) Task.workload

abbrev cpu_rows : List Row
cpu_rows =
    (("sample_time_utc", Scalar.time (naive 60))
      ∷ ("sql_cpu_pct", Scalar.int (pos 30))
      ∷ ("idle_pct", Scalar.int (pos 50))
      ∷ [])
    ∷ []

abbrev cpu_out : List Row
cpu_out =
    (("source_instance", Scalar.text "SQL1")
      ∷ ("sample_time_utc", Scalar.time (naive 60))
      ∷ ("sql_cpu_pct", Scalar.int (pos 30))
      ∷ ("other_cpu_pct", Scalar.int (pos 20))
      ∷ ("idle_pct", Scalar.int (pos 50))
      ∷ [])
    ∷ []

cpu_transformed : Cpu.transform (context none) cpu_rows ≡ ok cpu_out
unfolding Cpu.transform sql_observability.Base.Int.max_ℤ sql_observability.Base.Int.◌-ℤ◌
cpu_transformed = refl

transform-IsSample_example : All Cpu.IsSample cpu_out
transform-IsSample_example = Cpu.transform-IsSample (context none) cpu_rows cpu_out cpu_transformed

abbrev query_row : Row
query_row =
    ("query_hash", Scalar.opaque 1)
    ∷ ("exec_count", Scalar.int (pos 2))
    ∷ ("avg_cpu_ms", Scalar.opaque 3)
    ∷ ("avg_duration_ms", Scalar.opaque 4)
    ∷ ("avg_logical_reads", Scalar.int (pos 5))
    ∷ ("total_cpu_ms", Scalar.opaque 6)
    ∷ ("query_sql_text", Scalar.null)
    ∷ []

abbrev query_out : List Row
query_out =
    (("source_instance", Scalar.text "SQL1")
      ∷ ("snapshot_time_utc", Scalar.time (aware 1000))
      ∷ query_row)
    ∷ []

queries_transformed : QueryPerf.transform (context none) (query_row ∷ query_row ∷ []) ≡ ok query_out
unfolding QueryPerf.transform sql_observability.Tasks.Mapped.stamped
    sql_observability.Py.Row.scalar_beq
queries_transformed = refl

transform-IsUnrepeated_example :
    (seen : List (Scalar × Row)) × (map (λ e. e.1) seen ≡ query_out)
    × Hashes.IsUnrepeated seen
    × All Hashes.IsEntry seen
    × All (Hashes.IsCovered seen) (query_row ∷ query_row ∷ [])
transform-IsUnrepeated_example =
    Hashes.transform-IsUnrepeated (context none) (query_row ∷ query_row ∷ []) query_out
      queries_transformed

abbrev app : Attribution
app = record {
  login_name = Scalar.text "app";
  program_name = Scalar.null;
  host_name = Scalar.null;
  database_name = Scalar.null;
}

abbrev request : Row
request =
    ("login_name", Scalar.text "app")
    ∷ ("program_name", Scalar.null)
    ∷ ("host_name", Scalar.null)
    ∷ ("database_name", Scalar.null)
    ∷ ("cpu_time", Scalar.int (pos 4))
    ∷ ("logical_reads", Scalar.null)
    ∷ []

abbrev sessions_out : List Row
sessions_out =
    Sessions.row_of (context none)
      (app, record { active_requests = 2; cpu_ms_inflight = pos 8; reads_inflight = pos 0 })
    ∷ []

sessions_transformed : Sessions.transform (context none) (request ∷ request ∷ []) ≡ ok sessions_out
unfolding Sessions.transform Grouping.group sql_observability.Py.Row.scalar_beq
    sql_observability.Base.Int.◌+ℤ◌
sessions_transformed = refl

transform-groups_example :
    (events : List (Attribution × (ℤ × ℤ))) × (groups : List (Attribution × Sessions.Sample))
    × (traverse Sessions.read (request ∷ request ∷ []) ≡ ok events)
    × (length events ≡ length (request ∷ request ∷ []))
    × (map (Sessions.row_of (context none)) groups ≡ sessions_out)
    × Sessions.IsGrouped events groups
transform-groups_example =
    Sessions.transform-groups (context none) (request ∷ request ∷ []) sessions_out
      sessions_transformed

abbrev event : Workload.Event
event = record {
  timestamp = aware 100;
  cpu_time = pos 1500;
  duration = pos 0;
  logical_reads = pos 0;
  writes = pos 0;
  row_count = pos 0;
  key = app;
}

abbrev event_rows : List Row
event_rows = (("event_data", Scalar.text "<event/>") ∷ []) ∷ []

events_parsed : traverse (Workload.parse_row parsers) event_rows ≡ ok (event ∷ [])
unfolding Workload.parse_row
events_parsed = refl

abbrev workload_out : List Row
workload_out =
    Workload.row_of (context none) (aware 100) (app, Workload.add_event Workload.no_usage event)
    ∷ []

workload_transformed : Workload.transform parsers (context none) event_rows ≡ ok workload_out
unfolding Workload.transform sql_observability.Py.Datetime.earliest Grouping.group
workload_transformed = refl

transform-IsTally_example :
    (events : List Workload.Event) × (recent : List Workload.Event) × (traverse
        (Workload.parse_row parsers)
        event_rows
      ≡ ok events)
    × (Workload.new_events no_mark events ≡ ok recent)
    × Groups.IsTally (context none) recent workload_out
transform-IsTally_example =
    Groups.transform-IsTally parsers (context none) event_rows workload_out workload_transformed

event_passes : Workload.newer (aware 50) (event ∷ []) ≡ ok (event ∷ [])
unfolding Workload.newer
event_passes = refl

newer-eq_example :
    keep (λ (e : Workload.Event). ltb (instant (aware 50)) (instant e.timestamp)) (event ∷ [])
    ≡ event ∷ []
newer-eq_example = Window.newer-eq (aware 50) (event ∷ []) (event ∷ []) event_passes

first_event : Workload.new_events no_mark (event ∷ event ∷ []) ≡ ok (event ∷ event ∷ [])
unfolding Workload.new_events
first_event = refl

first_start : Workload.window_start no_mark event (event ∷ []) ≡ ok (aware 100)
unfolding Workload.window_start sql_observability.Py.Datetime.earliest
first_start = refl

window_start-le_example :
    All (λ (d : Workload.Event). instant (aware 100) ≤ instant d.timestamp) (event ∷ event ∷ [])
window_start-le_example =
    Window.window_start-le no_mark (event ∷ event ∷ []) event (event ∷ []) (aware 100) first_event
      first_start

transform_naive_example :
    Workload.transform parsers (context (some (naive 50))) event_rows ≡ err type_error
transform_naive_example =
    Window.transform_naive parsers (context (some (naive 50))) event_rows event [] 100 50
      events_parsed refl refl
