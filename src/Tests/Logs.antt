-- ===== src/Tests/Logs.antt =====
-- The log of runs, and dry runs of the program.
use sql_observability.Base.{◌≡◌, refl, ℕ, true, false, Option, some, List}
use sql_observability.Py.Errors.{ok}
use sql_observability.Py.Yaml.{dict, text}
use sql_observability.Collector.{run}
use sql_observability.Collector.Journal.{LogStep, LogSteps, journal, returned}
use sql_observability.Collector.Refinement.{run-LogStep}
use sql_observability.Tasks.Registry.{Task}
use sql_observability.Config.Shape.{names_in}
use sql_observability.Cli.{main}
use sql_observability.Cli.Dry.{main_dry}
use sql_observability.Cli.Refinement.{exit_code, main-LogSteps}
use sql_observability.Tests.Data.{world, fresh, waits, wait_rows, outside, config}
use sql_observability.Tests.Runs.{empty_store-IsLog, config_loads}

-- The commit of the batch fails, and the run is logged as failed.
run-LogStep_example :
    LogStep "waits"
      (text "SQL1")
      (returned (run (world (some 4)) waits "SQL1" (ok wait_rows) false fresh).0)
      (journal fresh.working)
      (journal (run (world (some 4)) waits "SQL1" (ok wait_rows) false fresh).1.committed)
run-LogStep_example =
    run-LogStep (world (some 4)) waits "SQL1" (ok wait_rows) fresh empty_store-IsLog refl

main-LogSteps_example :
    (outcomes : List (Option ℕ)) × ((main
        (world (some 6))
        outside
        (some (ok (dict config)))
        Task.waits
        false
        fresh).0
      ≡ ok (exit_code 0 outcomes))
    × LogSteps "waits" (names_in config) outcomes (journal fresh.committed) (
        journal
          (main
            (world (some 6))
            outside
            (some (ok (dict config)))
            Task.waits
            false
            fresh).1.committed)
main-LogSteps_example =
    main-LogSteps (world (some 6)) outside (some (ok (dict config))) Task.waits fresh config
      config_loads empty_store-IsLog refl

main_dry_example :
    ((main (world (some 1)) outside (some (ok (dict config))) Task.waits true fresh).1.committed
      ≡ fresh.committed)
    × ((main (world (some 1)) outside (some (ok (dict config))) Task.waits true fresh).1.working
        ≡ fresh.committed)
main_dry_example = main_dry (world (some 1)) outside (some (ok (dict config))) Task.waits fresh refl
