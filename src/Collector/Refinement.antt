-- ===== src/Collector/Refinement.antt =====
-- src/collectors/base.py, `run`: a run writes the log as the machine of Collector.Journal does.
use sql_observability.Base.{
  ℕ, suc, ◌≡◌, refl, sym, ap, ◌∙◌, subst, ◌⊎◌, inl, inr, String, false, Option, none, some, List,
  length, arith,
}
use sql_observability.Py.Errors.{Error, Result, ok, err, Result-cases}
use sql_observability.Py.Yaml.{text}
use sql_observability.Py.Row.{Row}
use sql_observability.Db.Server.{World, Run, Store, Server, settle, ◌>>=◌}
use sql_observability.Db.Server.Keeps.{Both}
use sql_observability.Db.Calls.{update_run, start_run, finish_run}
use sql_observability.Collector.{Collector, persist, on_failure, on_success, record_run, run}
use sql_observability.Collector.Logging.{persist-Keeps}
use sql_observability.Collector.Log.{IsLog}
use sql_observability.Collector.Outcome.{
  made, start_run-ok, finish_run-ok, finish_run-err, running_entry, run-record_run,
}
use sql_observability.Collector.Atomicity.{record_run-unstarted, record_run-settled}
use sql_observability.Collector.Dry.{run_unlogged}
use sql_observability.Collector.Journal.{
  Journal, journal, append, returned, LogStep, skipped, begun, failed, succeeded, end_run-append,
}

module _ (w : World) where
  start_run-err :
      (source_instance task : String) (s : Server) (e : Error)
      → (start_run w source_instance task s).0 ≡ err e
      → (start_run w source_instance task s).1.committed ≡ s.committed
  unfolding start_run ◌>>=◌
  start_run-err source_instance task s e h = ground arith

  -- The handler raises the exception again, with the entry ended as failed or left as it was.
  on_failure-outcome :
      (run_id : ℕ) (e : Error) (s : Server)
      → (returned (on_failure w run_id e s).0 ≡ none)
        × (((on_failure w run_id e s).1.committed ≡ s.committed)
            ⊎ ((on_failure w run_id e s).1.committed
                ≡ update_run run_id "failed" none
                    (some (w.describe e))
                    (w.clock s.calls)
                    s.working))
  unfolding on_failure ◌>>=◌
  on_failure-outcome run_id e s =
      elim (Result-cases (finish_run w run_id "failed" none (some (w.describe e)) s).0) [
        | inl (tt, fine) ↦ (
          rw fine refl,
          inr (rw fine (finish_run-ok w run_id "failed" none (some (w.describe e)) s fine).0),
        )
        | inr (x, bad) ↦ (
          rw bad refl,
          inl (rw bad (finish_run-err w run_id "failed" none (some (w.describe e)) s x bad)),
        )
      ]

  on_success-outcome :
      (run_id n : ℕ) (s : Server)
      → ((returned (on_success w run_id n s).0 ≡ none)
          × ((on_success w run_id n s).1.committed ≡ s.committed))
        ⊎ ((returned (on_success w run_id n s).0 ≡ some n)
            × ((on_success w run_id n s).1.committed
                ≡ update_run run_id "success" (some n) none (w.clock s.calls) s.working))
  unfolding on_success ◌>>=◌
  on_success-outcome run_id n s =
      elim (Result-cases (finish_run w run_id "success" (some n) none s).0) [
        | inl (tt, fine) ↦
            inr (rw fine refl, rw fine (finish_run-ok w run_id "success" (some n) none s fine).0)
        | inr (x, bad) ↦
            inl (rw bad refl, rw bad (finish_run-err w run_id "success" (some n) none s x bad))
      ]

module _ (w : World) (c : Collector) (source_instance : String) where
  -- How a run on `before` ended.
  abbrev pub RunStep : Store → Result ℕ × Server → Type 0
  RunStep before p =
      LogStep c.task_name (text source_instance) (returned p.0) (journal before)
        (journal p.1.committed)

  -- A run that raised, by the log that it left behind.
  raised-RunStep :
      (before : Store) (p : Result ℕ × Server) (j : Journal)
      → returned p.0 ≡ none
      → journal p.1.committed ≡ j
      → LogStep c.task_name (text source_instance) none (journal before) j
      → RunStep before p
  raised-RunStep before p j nothing is step = rw (nothing, is) step

  -- the log once the run has begun
  abbrev started_log : ℕ → Store → Journal
  started_log at before =
      append (λ run_id. running_entry run_id source_instance c.task_name at) (journal before)

  update_run-journal :
      (at : ℕ) (status : String) (n : Option ℕ) (m : Option String) (now : ℕ) (before store : Store)
      → IsLog before
      → journal store ≡ started_log at before
      → journal (update_run before.next_id status n m now store)
        ≡ append
            (λ run_id. record (running_entry run_id source_instance c.task_name at) {
              ended_at = some now;
              status = status;
              row_count = n;
              error_message = m;
            })
            (journal before)
  update_run-journal at status n m now before store log is =
      ap
        (λ (j : Journal). journal (
          update_run before.next_id status n m now
            (record store { runs = j.entries; next_id = j.next_id })))
        is
      ∙ ap (λ (es : List Run). record { entries = es; next_id = suc before.next_id })
          (end_run-append source_instance c.task_name at status n m now (journal before) log)

  -- The `except` and `else` clauses, after a `_persist` that kept the log.
  settle-RunStep :
      (at : ℕ) (rows : List Row) (before : Store) (r : Result (Unit {0})) (s : Server)
      → IsLog before
      → Both (λ store. journal store ≡ started_log at before) s
      → RunStep before (
          settle r (on_failure w before.next_id) (λ _. on_success w before.next_id (length rows)) s)
  settle-RunStep at rows before (err e) s log kept =
      let (nothing, ending) = on_failure-outcome w before.next_id e s in
      elim ending [
        | inl same ↦
            raised-RunStep before (on_failure w before.next_id e s) (started_log at before) nothing
              (ap journal same ∙ kept.0) (begun source_instance at (journal before))
        | inr ended ↦
            raised-RunStep before (on_failure w before.next_id e s) _ nothing
              (ap journal ended
                ∙ update_run-journal at "failed" none (some (w.describe e)) (w.clock s.calls) before
                    s.working log kept.1)
              (failed source_instance at (w.clock s.calls) (w.describe e) (journal before))
      ]
  settle-RunStep at rows before (ok tt) s log kept =
      elim (on_success-outcome w before.next_id (length rows) s) [
        | inl (nothing, same) ↦
            raised-RunStep before (on_success w before.next_id (length rows) s)
              (started_log at before) nothing (ap journal same ∙ kept.0)
              (begun source_instance at (journal before))
        | inr (count, ended) ↦
            let is =
              ap journal ended
              ∙ update_run-journal at "success" (some (length rows)) none (w.clock s.calls) before
                  s.working log kept.1 in
            rw (count, is)
              (succeeded source_instance at (w.clock s.calls) (length rows) (journal before))
      ]

  record_run-RunStep :
      (rows : List Row) (s : Server)
      → IsLog s.working
      → s.committed ≡ s.working
      → RunStep s.working (record_run w c source_instance rows s)
  record_run-RunStep rows s log fresh =
      let s1 = (start_run w source_instance c.task_name s).1 in
      elim (Result-cases (start_run w source_instance c.task_name s).0) [
        | inr (e, unstarted) ↦
            subst (RunStep s.working)
              (sym (record_run-unstarted w c source_instance rows s e unstarted))
              (raised-RunStep s.working (err e, s1) (journal s.working) refl
                (ap journal (start_run-err w source_instance c.task_name s e unstarted ∙ fresh))
                (skipped (text source_instance) (journal s.working)))
        | inl (run_id, started) ↦
            let (is_next, committed, working) =
              start_run-ok w source_instance c.task_name s run_id started in
            let log_kept =
              (persist-Keeps w c
                  {P = λ store. journal store ≡ started_log (w.clock s.calls) s.working}
                  (λ params now store h. h) rows).at
                s1 (ap journal committed, ap journal working) in
            subst (RunStep s.working)
              (sym (
                record_run-settled w c source_instance rows s s.working.next_id
                  (started ∙ ap ok is_next)))
              (settle-RunStep (w.clock s.calls) rows s.working (persist w c rows s1).0
                (persist w c rows s1).1 log log_kept)
      ]

  -- A run that is not dry, begun with no transaction open on a well-formed log, takes one step of
  -- the log machine, whichever calls of the server fail: if it returns n, it has appended a success
  -- with n rows and nothing else; if it raises, it has appended nothing, an entry that still runs,
  -- or a failure.
  pub run-LogStep :
      (fetched : Result (List Row)) (s : Server)
      → IsLog s.working
      → s.committed ≡ s.working
      → let (r, s') = run w c source_instance fetched false s in
        LogStep c.task_name
          (text source_instance)
          (returned r)
          (journal s.working)
          (journal s'.committed)
  run-LogStep fetched s log fresh = elim (Result-cases (made w c source_instance fetched)) [
    | inl (rows, is_made) ↦
        subst (RunStep s.working) (sym (run-record_run w c source_instance fetched rows s is_made))
          (record_run-RunStep rows s log fresh)
    | inr (e, unmade) ↦
        subst (RunStep s.working) (sym (run_unlogged w c source_instance fetched false e s unmade))
          (rw (ap journal fresh) (skipped (text source_instance) (journal s.working)))
  ]
