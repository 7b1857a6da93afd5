-- ===== src/Collector/Logging.antt =====
-- src/collectors/base.py and src/db.py: a property of the stored tables that the statements of a
-- run keep is kept by the whole run, whichever calls of the server fail.
use sql_observability.Base.{ℕ, String, Bool, Option, none, some, List, [], ◌∷◌, length}
use sql_observability.Py.Errors.{Error, Result}
use sql_observability.Py.Row.{Row, Scalar, project}
use sql_observability.Db.Server.{World, Store, lift}
use sql_observability.Db.Server.Keeps.{Keeps, Keeps-bind, Keeps-try, Keeps-lift, keeps_rules}
use sql_observability.Db.Calls.{insert_run, update_run, start_run, finish_run}
use sql_observability.Db.Merge.{merge_row, set_table, execute_merge, bind}
use sql_observability.Collector.{
  Collector, persist_rows, persist, on_failure, on_success, record_run, run,
}

-- What the statements of one run of `c` must keep.
pub record IsKept (w : World) (c : Collector) (P : Store → Type 0) : Type 0 where
  pub started :
      (source_instance : String) (now : ℕ) (store : Store)
      → P store
      → P (insert_run source_instance c.task_name now store)
  pub succeeded :
      (run_id n now : ℕ) (store : Store)
      → P store
      → P (update_run run_id "success" (some n) none now store)
  pub failed :
      (run_id now : ℕ) (message : String) (store : Store)
      → P store
      → P (update_run run_id "failed" none (some message) now store)
  pub merged :
      (params : List Scalar) (now : ℕ) (store : Store)
      → P store
      → P (set_table c.upsert.target (merge_row w c.upsert (bind c.upsert.source params)) store)

module _ (w : World) (c : Collector) {P : Store → Type 0}
    (merged : (params : List Scalar) (now : ℕ) (store : Store)
      → P store
      → P (
          set_table c.upsert.target
            (merge_row w c.upsert (bind c.upsert.source params))
            store)) where
  execute_merge-Keeps : (params : List Scalar) → Keeps P (execute_merge w c.upsert params)
  unfolding execute_merge
  execute_merge-Keeps params = search (keeps_rules, merged params)

  persist_rows-Keeps : (rows : List Row) → Keeps P (persist_rows w c rows)
  unfolding persist_rows
  persist_rows-Keeps [] = search keeps_rules
  persist_rows-Keeps (row ∷ rows) =
      Keeps-bind (lift (project c.columns row)) _ (Keeps-lift _) λ params.
        Keeps-bind (execute_merge w c.upsert params) _ (execute_merge-Keeps params)
          λ _. persist_rows-Keeps rows

  pub persist-Keeps : (rows : List Row) → Keeps P (persist w c rows)
  unfolding persist
  persist-Keeps rows = search (keeps_rules, persist_rows-Keeps rows)

module _ (w : World) {P : Store → Type 0} where
  pub start_run-Keeps :
      (source_instance task : String)
      → ((now : ℕ) (store : Store) → P store → P (insert_run source_instance task now store))
      → Keeps P (start_run w source_instance task)
  unfolding start_run
  start_run-Keeps source_instance task started = search (keeps_rules, started)

  pub finish_run-Keeps :
      (run_id : ℕ) (status : String) (n : Option ℕ) (m : Option String)
      → ((now : ℕ) (store : Store) → P store → P (update_run run_id status n m now store))
      → Keeps P (finish_run w run_id status n m)
  unfolding finish_run
  finish_run-Keeps run_id status n m updated = search (keeps_rules, updated)

  pub on_failure-Keeps :
      (run_id : ℕ) (e : Error)
      → ((now : ℕ) (message : String) (store : Store)
          → P store
          → P (update_run run_id "failed" none (some message) now store))
      → Keeps P (on_failure w run_id e)
  unfolding on_failure
  on_failure-Keeps run_id e failed =
      let finished =
        finish_run-Keeps run_id "failed" none (some (w.describe e))
          (λ now store. failed now (w.describe e) store) in
      search (keeps_rules, finished)

  pub on_success-Keeps :
      (run_id n : ℕ)
      → ((now : ℕ) (store : Store)
          → P store
          → P (update_run run_id "success" (some n) none now store))
      → Keeps P (on_success w run_id n)
  unfolding on_success
  on_success-Keeps run_id n succeeded =
      let finished = finish_run-Keeps run_id "success" (some n) none succeeded in
      search (keeps_rules, finished)

module _ {w : World} {c : Collector} {P : Store → Type 0} (kept : IsKept w c P) where
  record_run-Keeps :
      (source_instance : String) (rows : List Row) → Keeps P (record_run w c source_instance rows)
  unfolding record_run
  record_run-Keeps source_instance rows =
      Keeps-bind (start_run w source_instance c.task_name) _
        (start_run-Keeps w source_instance c.task_name (kept.started source_instance))
        λ run_id.
          Keeps-try (persist w c rows) (on_failure w run_id) _ (persist-Keeps w c kept.merged rows)
            (λ e. on_failure-Keeps w run_id e λ now m store. kept.failed run_id now m store)
            (λ _. on_success-Keeps w run_id (length rows) (kept.succeeded run_id (length rows)))

  pub run-Keeps :
      (source_instance : String) (fetched : Result (List Row)) (dry_run : Bool)
      → Keeps P (run w c source_instance fetched dry_run)
  run-Keeps source_instance fetched dry_run = unfold run in search (keeps_rules, record_run-Keeps)
