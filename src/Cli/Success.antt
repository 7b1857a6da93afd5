-- ===== src/Cli/Success.antt =====
-- run.py: a run of any of the thirteen tasks returns where nothing outside fails.
use sql_observability.Base.{ℕ, ◌≡◌, refl, String, Bool, none, List, All, All-weaken, length}
use sql_observability.Py.Errors.{ok}
use sql_observability.Py.Yaml.{Fields}
use sql_observability.Py.Row.{Row}
use sql_observability.Db.Server.{World, Server}
use sql_observability.Db.Query.{execute}
use sql_observability.Collector.Success.{IsStorable, run-returns}
use sql_observability.Tasks.Context.{Context}
use sql_observability.Tasks.Registry.{Task, collector}
use sql_observability.Tasks.Registry.Rows.{transform-IsStorable}
use sql_observability.Tasks.Registry.Returns.{IsReady, IsSourceRow, transform-returns}
use sql_observability.Cli.{Outside, run_collector}

-- If no call of the repository fails, the configuration and the watermark are ready for the task, and
-- the source answers with rows that have the columns the task's query selects, with values of the
-- right type (in XML: what is read is there, numbers are absent, empty or numerals, and times have an
-- offset), then the run returns the number of rows that the transform makes: the fetch, the transform
-- and the store fit together, for each of the thirteen tasks, dry or not.
pub run_collector-returns :
    (w : World) (o : Outside) (config : Fields) (t : Task) (dry_run : Bool) (ctx : Context)
    (source_instance : String) (rows : List Row) (s : Server)
    → ((n : ℕ) → w.failure n ≡ none)
    → (collector o.parsers ctx t).fetch_rows (execute (o.source_of source_instance)) ≡ ok rows
    → IsReady ctx t
    → All (IsSourceRow o.parsers t) rows
    → (out : List Row) × ((collector o.parsers ctx t).transform rows ≡ ok out)
      × ((run_collector w o config t dry_run (collector o.parsers ctx t) source_instance s).0
          ≡ ok (length out))
unfolding run_collector
run_collector-returns w o config t dry_run ctx source_instance rows s calm fetched ready shaped =
    let c = collector o.parsers ctx t in
    let (out, e) = transform-returns o.parsers ctx t rows ready shaped in
    let storable =
      All-weaken _ (IsStorable c) out (λ r h. h.1)
        (transform-IsStorable o.parsers ctx t rows out e) in
    (
      out,
      e,
      run-returns w calm c source_instance (c.fetch_rows (execute (o.source_of source_instance)))
          dry_run out s (rw (fetched, e) refl) storable,
    )
