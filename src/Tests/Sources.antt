-- ===== src/Tests/Sources.antt =====
-- The rows of a cursor, and the runs on what a source answers.
use sql_observability.Base.{
  inr, ◌≡◌, refl, String, false, none, some, List, [], ◌∷◌, All, all, length, nat_beq,
}
use sql_observability.Base.Int.{pos}
use sql_observability.Py.Errors.{ok, is_ok, traverse}
use sql_observability.Py.Row.{Row, Scalar, keys, project}
use sql_observability.Py.Yaml.{Yaml, Items, dict, get_or}
use sql_observability.Tasks.Waits.{set_of}
use sql_observability.Db.Query.{Source, execute}
use sql_observability.Db.Query.Rows.{execute-project, execute-is_ok}
use sql_observability.Tasks.Registry.{Task, collector}
use sql_observability.Tasks.Registry.Returns.{transform-returns}
use sql_observability.Cli.{main}
use sql_observability.Cli.Calm.{HasRepository, IsServed, main-returns}
use sql_observability.Tests.Runs.{config_loads}
use sql_observability.Tests.Data.{
  event_xml, world, fresh, wait_rows, wait_cursor, waits, parsers, context, outside, config,
  instance_fields,
}

abbrev source : Source
source query = ok wait_cursor

wait_rows_read : execute source "SELECT 1" ≡ ok wait_rows
unfolding execute
wait_rows_read = refl

execute-project_example :
    All (λ r. keys r ≡ "wait_type" ∷ "wait_time_ms" ∷ "waiting_tasks_count" ∷ []) wait_rows
    × (traverse (project ("wait_type" ∷ "wait_time_ms" ∷ "waiting_tasks_count" ∷ [])) wait_rows
        ≡ ok wait_cursor.rows)
execute-project_example =
    execute-project source "SELECT 1" ("wait_type" ∷ "wait_time_ms" ∷ "waiting_tasks_count" ∷ [])
      wait_cursor.rows wait_rows refl (refl, (refl, (refl, tt))) wait_rows_read

abbrev one_column : List String
one_column = "a" ∷ []

-- The second tuple is too short.
abbrev short_rows : List (List Scalar)
short_rows = (Scalar.null ∷ []) ∷ [] ∷ []

abbrev short_source : Source
short_source query = ok (record { description = some one_column; rows = short_rows })

execute-is_ok_example :
    is_ok (execute short_source "SELECT 1")
    ≡ all (λ vs. nat_beq (length one_column) (length vs)) short_rows
execute-is_ok_example = execute-is_ok short_source "SELECT 1" one_column short_rows refl

abbrev exclusions : List Yaml
exclusions = Yaml.text "SLEEP_TASK" ∷ []

waits_ready : set_of (get_or config "wait_type_exclusions" (Yaml.list Items.nil)) ≡ ok exclusions
unfolding set_of
waits_ready = refl

wait_rows_fetched : waits.fetch_rows (execute source) ≡ ok wait_rows
unfolding execute sql_observability.Collector.Fetch.fetch_once
wait_rows_fetched = refl

abbrev captured : Row
captured = ("event_data", Scalar.text "<event/>") ∷ []

-- An event with a processor time and a login; it has no other measures.
transform-returns_example :
    (out : List Row) × ((collector parsers (context none) Task.workload).transform (captured ∷ [])
      ≡ ok out)
unfolding sql_observability.Py.Text.replace
transform-returns_example =
    transform-returns parsers (context none) Task.workload (captured ∷ []) tt (
      (
        "<event/>",
        event_xml,
        refl,
        refl,
        ("2024-05-01T10:00:00Z", 100, refl, refl),
        (("cpu_time", refl, λ measure. inr (pos 1500, refl)), tt),
        (("server_principal_name", refl, tt), tt),
      ),
      tt,
    )

outside-HasRepository : HasRepository (world none) outside config Task.waits false
unfolding sql_observability.Cli.connect_string
    sql_observability.Db.Connection.build_connection_string
outside-HasRepository = (_, refl, (_, refl))

sql1-IsServed : IsServed (world none) outside config Task.waits false instance_fields
unfolding sql_observability.Cli.connect_string
    sql_observability.Db.Connection.build_connection_string
sql1-IsServed = record {
  source_instance = "SQL1";
  named = refl;
  source_string = _;
  source_connects = refl;
  rows = wait_rows;
  fetched = wait_rows_fetched;
  ready = (exclusions, waits_ready);
  shaped = (refl, (refl, tt));
}

main-returns_example :
    (main (world none) outside (some (ok (dict config))) Task.waits false fresh).0 ≡ ok 0
main-returns_example =
    main-returns (world none) outside (some (ok (dict config))) Task.waits false fresh config
      (Items.item (dict instance_fields) Items.nil) config_loads refl (λ n. refl) refl
      outside-HasRepository (sql1-IsServed, tt)
