-- ===== src/Collector/Outcome.antt =====
-- src/collectors/base.py, `run`: what its outcome says of the log.
use mathlib.Core.List.{map-append}
use sql_observability.Base.{
  ℕ, suc, ◌≤◌, ◌≡◌, refl, sym, ap, ap₂, ◌∙◌, inl, inr, String, false, Option, none, some, List, [],
  ◌∷◌, ◌++◌, map, nat_beq_refl, arith, length,
}
use sql_observability.Py.Errors.{Error, Result, ok, err, ◌>>=◌, Result-cases}
use sql_observability.Py.Row.{Row}
use sql_observability.Db.Server.{World, Run, Store, Server, ◌>>=◌ as ◌then◌, try_except_else}
use sql_observability.Db.Calls.{insert_run, end_run, update_run, start_run, finish_run}
use sql_observability.Collector.{Collector, persist, on_failure, on_success, record_run, run}
use sql_observability.Collector.Logging.{persist-Keeps}
use sql_observability.Collector.Log.{IsAscending, IsLog}

module _ (w : World) where
  pub start_run-ok :
      (source_instance task : String) (s : Server) (run_id : ℕ)
      → (start_run w source_instance task s).0 ≡ ok run_id
      → (run_id ≡ s.working.next_id)
        × ((start_run w source_instance task s).1.committed
            ≡ insert_run source_instance task (w.clock s.calls) s.working)
        × ((start_run w source_instance task s).1.working
            ≡ insert_run source_instance task (w.clock s.calls) s.working)
  unfolding start_run ◌then◌
  start_run-ok source_instance task s run_id h = ground arith

  pub finish_run-ok :
      (run_id : ℕ) (status : String) (n : Option ℕ) (m : Option String) (s : Server)
      → (finish_run w run_id status n m s).0 ≡ ok tt
      → ((finish_run w run_id status n m s).1.committed
          ≡ update_run run_id status n m (w.clock s.calls) s.working)
        × ((finish_run w run_id status n m s).1.working
            ≡ update_run run_id status n m (w.clock s.calls) s.working)
  unfolding finish_run ◌then◌
  finish_run-ok run_id status n m s h = ground arith

  pub finish_run-err :
      (run_id : ℕ) (status : String) (n : Option ℕ) (m : Option String) (s : Server) (e : Error)
      → (finish_run w run_id status n m s).0 ≡ err e
      → (finish_run w run_id status n m s).1.committed ≡ s.committed
  unfolding finish_run ◌then◌
  finish_run-err run_id status n m s e h = ground arith

  on_success-ok :
      (run_id k : ℕ) (s : Server) (n : ℕ)
      → (on_success w run_id k s).0 ≡ ok n
      → (n ≡ k)
        × ((on_success w run_id k s).1.committed
            ≡ update_run run_id "success" (some n) none (w.clock s.calls) s.working)
  unfolding on_success ◌then◌
  on_success-ok run_id k s n h = ground (arith, finish_run-ok run_id "success" (some k) none s)

-- The entry of a run that has begun.
abbrev pub running_entry : ℕ → String → String → ℕ → Run
running_entry run_id source_instance task started = record {
  run_id = run_id;
  source_instance = source_instance;
  task = task;
  started_at = started;
  ended_at = none;
  status = "running";
  row_count = none;
  error_message = none;
}

-- The entry of a run that ended as a success.
abbrev pub success_entry : ℕ → String → String → ℕ → ℕ → ℕ → Run
success_entry run_id source_instance task started ended n = record {
  run_id = run_id;
  source_instance = source_instance;
  task = task;
  started_at = started;
  ended_at = some ended;
  status = "success";
  row_count = some n;
  error_message = none;
}

IsAscending-le : (low next : ℕ) (rs : List Run) → IsAscending low rs next → low ≤ next
IsAscending-le low next [] h = h
IsAscending-le low next (r ∷ rs) h = omega (arith, IsAscending-le (suc r.run_id) next rs h.2, h.1)

pub end_run-below :
    (run_id : ℕ) (status : String) (n : Option ℕ) (m : Option String) (now low : ℕ) (rs : List Run)
    → IsAscending low rs run_id
    → map (end_run run_id status n m now) rs ≡ rs
end_run-below run_id status n m now low [] h = refl
end_run-below run_id status n m now low (r ∷ rs) h =
    ap₂ (λ (x : Run) (xs : List Run). x ∷ xs)
      (ground (arith, IsAscending-le (suc r.run_id) run_id rs h.2))
      (end_run-below run_id status n m now (suc r.run_id) rs h.2)

module _ (w : World) (c : Collector) (source_instance : String) where
  -- The rows to store, or the exception of the fetch or the transform.
  abbrev pub made : Result (List Row) → Result (List Row)
  made fetched = fetched >>= c.transform

  persist-runs :
      (rows : List Row) (s : Server)
      → s.committed ≡ s.working
      → (persist w c rows s).1.working.runs ≡ s.working.runs
  persist-runs rows s same =
      ((persist-Keeps w c {P = λ store. store.runs ≡ s.working.runs} (λ params now store h. h)
          rows).at
        s (ap (λ (t : Store). t.runs) same, refl)).1

  pub record_run-persisted :
      (rows : List Row) (s : Server) (run_id : ℕ)
      → (start_run w source_instance c.task_name s).0 ≡ ok run_id
      → (persist w c rows (start_run w source_instance c.task_name s).1).0 ≡ ok tt
      → record_run w c source_instance rows s
        ≡ on_success w run_id
            (length rows)
            (persist w c rows (start_run w source_instance c.task_name s).1).1
  unfolding record_run ◌then◌ try_except_else
  record_run-persisted rows s run_id started stored = ground arith

  -- What a run has done when it returns.
  pub record_run-steps :
      (rows : List Row) (s : Server) (n : ℕ)
      → (record_run w c source_instance rows s).0 ≡ ok n
      → (run_id : ℕ) × ((start_run w source_instance c.task_name s).0 ≡ ok run_id)
        × ((persist w c rows (start_run w source_instance c.task_name s).1).0 ≡ ok tt)
  unfolding record_run on_failure ◌then◌ try_except_else
  record_run-steps rows s n h = elim (Result-cases (start_run w source_instance c.task_name s).0) [
    | inr (e, failed) ↦ absurd (ground arith)
    | inl (run_id, started) ↦
        elim (Result-cases (persist w c rows (start_run w source_instance c.task_name s).1).0) [
          | inr (e, failed) ↦ absurd (ground arith)
          | inl (tt, stored) ↦ (run_id, started, stored)
        ]
  ]

  -- A run that returns has written its entry, and everything that it wrote is committed.
  record_run-ok :
      (rows : List Row) (s : Server) (n : ℕ)
      → (record_run w c source_instance rows s).0 ≡ ok n
      → (ended : ℕ) × (n ≡ length rows)
        × ((record_run w c source_instance rows s).1.committed.runs
            ≡ map
                (end_run s.working.next_id "success" (some n) none ended)
                (insert_run source_instance c.task_name (w.clock s.calls) s.working).runs)
  record_run-ok rows s n h =
      let (run_id, started, stored) = record_run-steps rows s n h in
      let s1 = (start_run w source_instance c.task_name s).1 in
      let s2 = (persist w c rows s1).1 in
      let same = record_run-persisted rows s run_id started stored in
      let (is_next, committed, working) =
        start_run-ok w source_instance c.task_name s run_id started in
      let (count, written) =
        on_success-ok w run_id (length rows) s2 n
          (ap (λ (p : Result ℕ × Server). p.0) (sym same) ∙ h) in
      let kept =
        persist-runs rows s1 (committed ∙ sym working) ∙ ap (λ (t : Store). t.runs) working in
      (
        w.clock s2.calls,
        count,
        ap (λ (p : Result ℕ × Server). p.1.committed.runs) same
            ∙ ap (λ (t : Store). t.runs) written
            ∙ ap₂
                (λ (id : ℕ) (rs : List Run).
                  map (end_run id "success" (some n) none (w.clock s2.calls)) rs)
                is_next kept,
      )

  -- Past the fetch and the transform, a run that is not dry is `record_run`.
  pub run-record_run :
      (fetched : Result (List Row)) (rows : List Row) (s : Server)
      → made fetched ≡ ok rows
      → run w c source_instance fetched false s ≡ record_run w c source_instance rows s
  unfolding run ◌then◌
  run-record_run fetched rows s h = ground arith

  run-transformed :
      (fetched : Result (List Row)) (s : Server) (n : ℕ)
      → (run w c source_instance fetched false s).0 ≡ ok n
      → (rows : List Row) × (made fetched ≡ ok rows)
  unfolding run ◌then◌
  run-transformed fetched s n h = elim (Result-cases (made fetched)) [
    | inl (rows, e) ↦ (rows, e)
    | inr (e, failed) ↦ absurd (ground arith)
  ]

  -- If `run` returns n outside a dry run, the committed log is the old one with exactly one new
  -- entry: a success of this task and instance with n rows, under the next id. The log was well
  -- formed before.
  pub run_logged :
      (fetched : Result (List Row)) (s : Server) (n : ℕ)
      → IsLog s.working
      → (run w c source_instance fetched false s).0 ≡ ok n
      → (ended : ℕ) × ((run w c source_instance fetched false s).1.committed.runs
          ≡ s.working.runs
            ++ success_entry s.working.next_id source_instance c.task_name (w.clock s.calls) ended n
              ∷ [])
  run_logged fetched s n log h =
      let (rows, is_made) = run-transformed fetched s n h in
      let same = run-record_run fetched rows s is_made in
      let returned = ap (λ (p : Result ℕ × Server). p.0) (sym same) ∙ h in
      let (ended, count, written) = record_run-ok rows s n returned in
      let entry = running_entry s.working.next_id source_instance c.task_name (w.clock s.calls) in
      (
        ended,
        ap (λ (p : Result ℕ × Server). p.1.committed.runs) same
            ∙ written
            ∙ map-append (end_run s.working.next_id "success" (some n) none ended) s.working.runs
                (entry ∷ [])
            ∙ ap₂ (λ (xs ys : List Run). xs ++ ys)
                (end_run-below s.working.next_id "success" (some n) none ended 0 s.working.runs log)
                (rw (nat_beq_refl s.working.next_id) refl),
      )
