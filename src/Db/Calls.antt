-- ===== src/Db/Calls.antt =====
-- src/db.py: `start_run` and `finish_run`, and the query for a collector's watermark.
use sql_observability.Base.{
  ℕ, suc, String, ◌&&◌, Option, none, some, List, [], ◌∷◌, ◌++◌, Bool, map, nat_beq, ltb,
  if◌then◌else◌,
}
use sql_observability.Py.Row.{Scalar, text}
use sql_observability.Py.Datetime.{Datetime}
use sql_observability.Db.Server.{
  Run, Store, World, Action, pure, gets, ◌>>=◌, ◌>>◌, statement, fetch, commit,
}

-- INSERT INTO dbo.collection_run (source_instance, task, status) VALUES (?, ?, 'running')
abbrev pub insert_run : String → String → ℕ → Store → Store
insert_run source_instance task now store = record store {
  runs =
      store.runs
      ++ record {
        run_id = store.next_id;
        source_instance = source_instance;
        task = task;
        started_at = now;
        ended_at = none;
        status = "running";
        row_count = none;
        error_message = none;
      }
        ∷ [];
  next_id = suc store.next_id;
}

-- UPDATE dbo.collection_run SET ... WHERE run_id = ?
abbrev pub end_run : ℕ → String → Option ℕ → Option String → ℕ → Run → Run
end_run run_id status row_count error_message now r =
    if nat_beq r.run_id run_id
    then record r {
      ended_at = some now;
      status = status;
      row_count = row_count;
      error_message = error_message;
    }
    else r

abbrev pub update_run : ℕ → String → Option ℕ → Option String → ℕ → Store → Store
update_run run_id status row_count error_message now store = record store {
  runs = map (end_run run_id status row_count error_message now) store.runs;
}

-- SELECT MAX(started_at_utc) WHERE source_instance = ? AND task = ? AND status = 'success'
abbrev pub latest : Option ℕ → ℕ → Option ℕ
latest none n = some n
latest (some m) n = if ltb m n then some n else some m

-- The texts are compared as the server compares them, `same`.
abbrev pub last_success :
    (Scalar → Scalar → Bool) → String → String → Option ℕ → List Run → Option ℕ
last_success same source_instance task best [] = best
last_success same source_instance task best (r ∷ rs) =
    last_success same source_instance task
      (if same (text r.source_instance) (text source_instance)
          && same (text r.task) (text task)
          && same (text r.status) (text "success")
        then latest best r.started_at
        else best)
      rs

module _ (w : World) where
  -- `run_id` is what OUTPUT INSERTED.run_id hands back to `fetchone`.
  unfoldable pub start_run : String → String → Action ℕ
  start_run source_instance task = do
    run_id ← gets (λ s. s.working.next_id)
    statement w (insert_run source_instance task)
    fetch w
    commit w
    pure run_id

  unfoldable pub finish_run : ℕ → String → Option ℕ → Option String → Action (Unit {0})
  finish_run run_id status row_count error_message = do
    statement w (update_run run_id status row_count error_message)
    commit w

  -- `_get_watermark` of a collector: MAX gives one row, NULL where no run has succeeded.
  unfoldable pub get_watermark : String → String → Action (Option Datetime)
  get_watermark source_instance task = do
    fetch w
    fetch w
    best ← gets (λ s. last_success w.same source_instance task none s.working.runs)
    pure (elim best [ none ↦ none | some n ↦ some (w.datetime2 n) ])
