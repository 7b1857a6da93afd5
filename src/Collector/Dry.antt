-- ===== src/Collector/Dry.antt =====
-- src/collectors/base.py, `run`: what it does before anything is written.
use sql_observability.Base.{◌≡◌, String, Bool, true, List, length, arith}
use sql_observability.Py.Errors.{Error, Result, ok, err, ◌>>=◌}
use sql_observability.Py.Row.{Row}
use sql_observability.Db.Server.{World, Server, ◌>>=◌ as ◌then◌}
use sql_observability.Collector.{Collector, run}

module _ (w : World) (c : Collector) (source_instance : String) where
  -- A dry run returns the number of rows that the transform makes, or the exception of the fetch
  -- or the transform, and leaves the server exactly as it was.
  pub run_dry :
      (fetched : Result (List Row)) (s : Server)
      → run w c source_instance fetched true s
        ≡ ((do rows ← fetched; out ← c.transform rows; ok (length out)), s)
  unfolding run ◌then◌
  run_dry fetched s = ground arith

  -- An exception of the fetch or the transform comes out of `run` as it is, and the server is
  -- untouched: such a run leaves no row in the log, dry or not.
  pub run_unlogged :
      (fetched : Result (List Row)) (dry_run : Bool) (e : Error) (s : Server)
      → (fetched >>= c.transform) ≡ err e
      → run w c source_instance fetched dry_run s ≡ (err e, s)
  unfolding run ◌then◌
  run_unlogged fetched dry_run e s h = ground arith
