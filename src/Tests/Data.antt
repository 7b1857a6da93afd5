-- ===== src/Tests/Data.antt =====
-- The data of the tests: a server, its world, a configuration and rows of the sources.
use sql_observability.Base.{
  ℕ, ◌*◌, String, true, Option, none, some, List, [], ◌∷◌, ◌==◌, nat_beq, if◌then◌else◌,
}
use sql_observability.Base.Int.{pos}
use sql_observability.Py.Errors.{Error, ok, err, driver_error, value_error}
use sql_observability.Py.Datetime.{Datetime, aware, naive}
use sql_observability.Py.Yaml.{Yaml, Fields, Items, field, end, dict}
use sql_observability.Py.Row.{Row, Scalar, scalar_beq}
use sql_observability.Py.Xml.{Element, element, nothing, child, Parsers}
use sql_observability.Db.Server.{World, Store, Server}
use sql_observability.Db.Query.{Cursor}
use sql_observability.Collector.{Collector}
use sql_observability.Tasks.Context.{Context}
use sql_observability.Tasks.Registry.{Task, collector}
use sql_observability.Cli.{Outside}

abbrev pub failing_at : Option ℕ → ℕ → Option Error
failing_at none n = none
failing_at (some k) n = if nat_beq n k then some (driver_error "connection lost") else none

-- A world in which at most one call fails.
abbrev pub world : Option ℕ → World
world bad = record {
  failure = failing_at bad;
  clock = λ n. n * 10;
  same = scalar_beq;
  digest = λ vs. 0;
  datetime2 = naive;
  describe = λ e. "Traceback";
}

abbrev pub empty_store : Store
empty_store = record { runs = []; next_id = 1; facts = λ name. [] }

abbrev pub fresh : Server
fresh = record { committed = empty_store; working = empty_store; calls = 0 }

-- An event with a processor time and a login.
abbrev pub event_xml : Element
event_xml = element "event" (("timestamp", "2024-05-01T10:00:00Z") ∷ []) none (
    child
      (element "data" (("name", "cpu_time") ∷ []) none
        (child (element "value" [] (some "1500") nothing) nothing))
      (child
        (element "action" (("name", "server_principal_name") ∷ []) none
          (child (element "value" [] (some "app") nothing) nothing))
        nothing))

abbrev pub parsers : Parsers
parsers = record {
  fromstring = λ s. if s == "<event/>" then ok event_xml else err value_error;
  tostring = λ e. "<deadlock/>";
  fromisoformat = λ s. ok (aware 100);
  to_int = λ s. ok (pos 1500);
  format_int = λ n. "50";
}

abbrev pub repository : Yaml
repository = dict (
    field "server" (Yaml.text "repo") (
      field "database" (Yaml.text "obs") (
        field "driver" (Yaml.text "ODBC") (
          field "encrypt" (Yaml.bool true) (
            field "trust_server_certificate" (Yaml.bool true)
              (field "integrated_auth" (Yaml.bool true) end))))))

abbrev pub instance_fields : Fields
instance_fields = field "name" (Yaml.text "SQL1") (
    field "driver" (Yaml.text "ODBC") (
      field "encrypt" (Yaml.bool true) (
        field "trust_server_certificate" (Yaml.bool true) (
          field "integrated_auth" (Yaml.bool true) (field "databases" (Yaml.list Items.nil) end)))))

abbrev pub config : Fields
config = field "repository" repository (
    field "monitored_instances" (Yaml.list (Items.item (dict instance_fields) Items.nil)) (
      field "tasks"
        (dict (
          field "waits"
            (dict
              (field "enabled" (Yaml.bool true) (field "cadence_minutes" (Yaml.int (pos 60)) end)))
            end))
        (field "wait_type_exclusions" (Yaml.list (Items.item (Yaml.text "SLEEP_TASK") Items.nil))
          end)))

abbrev pub context : Option Datetime → Context
context watermark = record {
  source_instance = "SQL1";
  config = config;
  now = aware 1000;
  watermark = watermark;
}

abbrev pub wait_row : String → Row
wait_row wait_type =
    ("wait_type", Scalar.text wait_type)
    ∷ ("wait_time_ms", Scalar.int (pos 5))
    ∷ ("waiting_tasks_count", Scalar.int (pos 1))
    ∷ []

abbrev pub wait_rows : List Row
wait_rows = wait_row "LCK_M_X" ∷ wait_row "SLEEP_TASK" ∷ []

-- The row of fact_wait_stats that is made of the first one.
abbrev pub stored_wait : Row
stored_wait =
    ("source_instance", Scalar.text "SQL1")
    ∷ ("snapshot_time_utc", Scalar.time (aware 1000))
    ∷ ("wait_type", Scalar.text "LCK_M_X")
    ∷ ("wait_ms_cum", Scalar.int (pos 5))
    ∷ ("waiting_tasks_cum", Scalar.int (pos 1))
    ∷ []

abbrev pub wait_cursor : Cursor
wait_cursor = record {
  description = some ("wait_type" ∷ "wait_time_ms" ∷ "waiting_tasks_count" ∷ []);
  rows =
      (Scalar.text "LCK_M_X" ∷ Scalar.int (pos 5) ∷ Scalar.int (pos 1) ∷ [])
      ∷ (Scalar.text "SLEEP_TASK" ∷ Scalar.int (pos 5) ∷ Scalar.int (pos 1) ∷ [])
      ∷ [];
}

abbrev pub waits : Collector
waits = collector parsers (context none) Task.waits

abbrev pub outside : Outside
outside = record {
  environ = λ name. none;
  str = λ v. "?";
  parsers = parsers;
  now = aware 1000;
  source_of = λ instance' query. ok wait_cursor;
}
