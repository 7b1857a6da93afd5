-- ===== src/Collector.antt =====
-- src/collectors/base.py: the contract of a collector and `Collector.run`.
pub mod Dry
pub mod Logging
pub mod Log
pub mod Outcome
pub mod Stored
pub mod Atomicity
pub mod PerDatabase
pub mod Fetch
pub mod Journal
pub mod Refinement
pub mod Success
pub mod Retry
use sql_observability.Base.{
  ℕ, String, Bool, Option, none, some, List, [], ◌∷◌, length, if◌then◌else◌,
}
use sql_observability.Py.Errors.{Error, Result}
use sql_observability.Py.Row.{Row, project}
use sql_observability.Db.Server.{
  World, Merge, Action, pure, throw, lift, ◌>>=◌, ◌>>◌, try_except_else, commit,
}
use sql_observability.Db.Merge.{execute_merge}
use sql_observability.Db.Calls.{start_run, finish_run}

-- What a subclass of `Collector` provides.
pub record Collector : Type 0 where
  pub task_name : String
  pub fetch_rows : (String → Result (List Row)) → Result (List Row)
  pub transform : List Row → Result (List Row)
  pub columns : List String
  pub upsert : Merge

module _ (w : World) where
  -- `except Exception as exc:` mark the run as failed, and raise again
  unfoldable pub on_failure : ℕ → Error → Action ℕ
  on_failure run_id exc = do finish_run w run_id "failed" none (some (w.describe exc)); throw exc

  -- `else:` mark the run as a success
  unfoldable pub on_success : ℕ → ℕ → Action ℕ
  on_success run_id row_count = do
    finish_run w run_id "success" (some row_count) none
    pure row_count

module _ (w : World) (c : Collector) where
  -- The loop of `_persist`.
  unfoldable pub persist_rows : List Row → Action (Unit {0})
  persist_rows [] = pure tt
  persist_rows (row ∷ rows) = do
    params ← lift (project c.columns row)
    execute_merge w c.upsert params
    persist_rows rows

  unfoldable pub persist : List Row → Action (Unit {0})
  unfolding persist_rows
  persist rows = persist_rows rows >> commit w

  -- `run` past the dry-run test.
  unfoldable pub record_run : String → List Row → Action ℕ
  record_run source_instance transformed = do
    run_id ← start_run w source_instance c.task_name
    try_except_else (persist transformed) (on_failure w run_id)
        (λ _. on_success w run_id (length transformed))

  -- `fetched` is what `fetch_rows` returns or raises.
  unfoldable pub run : String → Result (List Row) → Bool → Action ℕ
  run source_instance fetched dry_run = do
    rows ← lift fetched
    transformed ← lift (c.transform rows)
    if dry_run then pure (length transformed) else record_run source_instance transformed
