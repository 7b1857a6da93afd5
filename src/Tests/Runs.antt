-- ===== src/Tests/Runs.antt =====
-- Runs of a collector, and of the program.
use sql_observability.Base.{◌≡◌, refl, ◌⊎◌, ℕ, false, none, some, List, [], ◌∷◌, ◌++◌, arith}
use sql_observability.Py.Errors.{Result, ok, err, is_ok, value_error}
use sql_observability.Py.Yaml.{Yaml, dict}
use sql_observability.Py.Row.{Row}
use sql_observability.Db.Server.{Server}
use sql_observability.Db.Server.Keeps.{Both}
use sql_observability.Config.{load_config}
use sql_observability.Collector.{Collector, run}
use sql_observability.Collector.Dry.{run_unlogged}
use sql_observability.Collector.Log.{IsLog, run-IsLog}
use sql_observability.Collector.Outcome.{made, run_logged, success_entry}
use sql_observability.Collector.Stored.{IsMerged, table_of}
use sql_observability.Collector.Atomicity.{run-IsMerged}
use sql_observability.Tasks.Registry.{Task}
use sql_observability.Cli.{main, each_instance}
use sql_observability.Cli.Exit.{IsAllDone, each_instance-exit}
use sql_observability.Cli.Log.{main-IsLog}
use sql_observability.Tests.Data.{
  world, fresh, empty_store, waits, wait_rows, stored_wait, outside, config, instance_fields,
}

abbrev fetched : Result (List Row)
fetched = ok wait_rows

pub transform_wait_rows : made (world none) waits "SQL1" fetched ≡ ok (stored_wait ∷ [])
unfolding sql_observability.Tasks.Waits.transform sql_observability.Tasks.Waits.excluded
    sql_observability.Py.Yaml.yaml_eq sql_observability.Tasks.Mapped.stamped
transform_wait_rows = refl

-- The third call after the start fails: the commit of the batch.
run-IsMerged_example :
    IsMerged
      (world (some 4))
      waits
      (stored_wait ∷ [])
      (is_ok (run (world (some 4)) waits "SQL1" fetched false fresh).0)
      (table_of (world (some 4)) waits fresh.working)
      (table_of
        (world (some 4))
        waits
        (run (world (some 4)) waits "SQL1" fetched false fresh).1.committed)
run-IsMerged_example =
    run-IsMerged (world (some 4)) waits "SQL1" fetched (stored_wait ∷ []) fresh refl
      transform_wait_rows

run_returns : (run (world none) waits "SQL1" fetched false fresh).0 ≡ ok 1
unfolding run sql_observability.Db.Server.◌>>=◌ sql_observability.Tasks.Waits.transform
    sql_observability.Tasks.Waits.excluded sql_observability.Py.Yaml.yaml_eq
    sql_observability.Tasks.Mapped.stamped sql_observability.Collector.record_run
    sql_observability.Db.Calls.start_run sql_observability.Db.Server.try_except_else
    sql_observability.Collector.persist sql_observability.Db.Merge.execute_merge
    sql_observability.Collector.on_success sql_observability.Db.Calls.finish_run
run_returns = refl

pub empty_store-IsLog : IsLog empty_store
empty_store-IsLog = omega arith

run_logged_example :
    (ended : ℕ) × ((run (world none) waits "SQL1" fetched false fresh).1.committed.runs
      ≡ [] ++ success_entry 1 "SQL1" "waits" 0 ended 1 ∷ [])
run_logged_example =
    run_logged (world none) waits "SQL1" fetched fresh 1 empty_store-IsLog run_returns

run-IsLog_example : Both IsLog (run (world (some 3)) waits "SQL1" fetched false fresh).1
run-IsLog_example =
    run-IsLog (world (some 3)) waits "SQL1" fetched false fresh
      (empty_store-IsLog, empty_store-IsLog)

run_unlogged_example :
    run (world none) waits "SQL1" (err value_error) false fresh ≡ (err value_error, fresh)
run_unlogged_example =
    run_unlogged (world none) waits "SQL1" (err value_error) false value_error fresh refl

pub config_loads : load_config (some (ok (dict config))) ≡ ok config
unfolding load_config sql_observability.Config.validate_repository
    sql_observability.Config.validate_monitored_instances sql_observability.Py.Yaml.yaml_eq
    sql_observability.Config.validate_tasks
config_loads = refl

main-IsLog_example :
    Both IsLog (main (world (some 6)) outside (some (ok (dict config))) Task.waits false fresh).1
main-IsLog_example =
    main-IsLog (world (some 6)) outside (some (ok (dict config))) Task.waits false fresh
      (empty_store-IsLog, empty_store-IsLog)

abbrev instances : List Yaml
instances = dict instance_fields ∷ dict instance_fields ∷ []

each_instance-exit_example :
    (((each_instance (world (some 6)) outside config Task.waits false instances 0 fresh).0 ≡ ok 0)
      × IsAllDone (world (some 6)) outside config Task.waits false instances fresh)
    ⊎ (((each_instance (world (some 6)) outside config Task.waits false instances 0 fresh).0 ≡ ok 1)
        × ¬ IsAllDone (world (some 6)) outside config Task.waits false instances fresh)
each_instance-exit_example =
    each_instance-exit (world (some 6)) outside config Task.waits false instances fresh (
      (refl, (refl, (refl, (refl, (refl, (refl, tt)))))),
      ((refl, (refl, (refl, (refl, (refl, (refl, tt)))))), tt),
    )
