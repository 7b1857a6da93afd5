-- ===== src/Collector/Success.antt =====
-- src/collectors/base.py, `run`: it returns where no call of the server fails and each row has its
-- parameters.
use sql_observability.Base.{
  ℕ, suc, some, Option, ◌≡◌, refl, ap, ◌∙◌, String, Bool, true, false, none, List, [], ◌∷◌, All,
  length, nat_beq_refl,
}
use sql_observability.Py.Errors.{Result, ok, err, ◌>>=◌}
use sql_observability.Py.Row.{Row, Scalar, project}
use sql_observability.Db.Server.{World, Server, Merge, ◌>>=◌ as ◌then◌}
use sql_observability.Db.Merge.{execute_merge}
use sql_observability.Db.Calls.{start_run, finish_run}
use sql_observability.Collector.{Collector, persist_rows, persist, on_success, record_run, run}
use sql_observability.Collector.Outcome.{made, record_run-persisted, run-record_run}
use sql_observability.Collector.Stored.{persist_rows-stored}
use sql_observability.Collector.Dry.{run_dry}

-- A row from which `persist` can take a parameter for every placeholder.
abbrev pub IsStorable : Collector → Row → Type 0
IsStorable c r =
    (vs : List Scalar) × (project c.columns r ≡ ok vs) × (length vs ≡ length c.upsert.source)

dry_result :
    (c : Collector) (fetched : Result (List Row)) (rows : List Row)
    → (fetched >>= c.transform) ≡ ok rows
    → (do seen ← fetched; out ← c.transform seen; ok (length out)) ≡ ok (length rows)
dry_result c (ok seen) rows h = rw h refl
dry_result c (err e) rows h = absurd (cc)

module _ (w : World) (calm : (n : ℕ) → w.failure n ≡ none) where
  start_run-returns :
      (source_instance task : String) (s : Server)
      → (start_run w source_instance task s).0 ≡ ok s.working.next_id
  unfolding start_run ◌then◌
  start_run-returns source_instance task s =
      rw (calm s.calls, calm (suc s.calls), calm (suc (suc s.calls))) refl

  finish_run-returns :
      (run_id : ℕ) (status : String) (n : Option ℕ) (m : Option String) (s : Server)
      → (finish_run w run_id status n m s).0 ≡ ok tt
  unfolding finish_run ◌then◌
  finish_run-returns run_id status n m s = rw (calm s.calls, calm (suc s.calls)) refl

  on_success-returns : (run_id n : ℕ) (s : Server) → (on_success w run_id n s).0 ≡ ok n
  unfolding on_success ◌then◌
  on_success-returns run_id n s = rw (finish_run-returns run_id "success" (some n) none s) refl

  execute_merge-returns :
      (m : Merge) (params : List Scalar) (s : Server)
      → length params ≡ length m.source
      → (execute_merge w m params s).0 ≡ ok tt
  unfolding execute_merge ◌then◌
  execute_merge-returns m params s h = rw (h, nat_beq_refl (length m.source), calm s.calls) refl

  module _ (c : Collector) where
    persist_rows-returns :
        (rows : List Row) (s : Server)
        → All (IsStorable c) rows
        → (persist_rows w c rows s).0 ≡ ok tt
    unfolding persist_rows ◌then◌
    persist_rows-returns [] s h = refl
    persist_rows-returns (row ∷ rows) s ((params, is, fits), others) =
        let s1 = (execute_merge w c.upsert params s).1 in
        ap (λ p. p.0)
          (persist_rows-stored w c row rows params s is
            (execute_merge-returns c.upsert params s fits))
        ∙ persist_rows-returns rows s1 others

    persist-returns :
        (rows : List Row) (s : Server) → All (IsStorable c) rows → (persist w c rows s).0 ≡ ok tt
    unfolding persist ◌then◌
    persist-returns rows s h =
        rw (persist_rows-returns rows s h, calm (persist_rows w c rows s).1.calls) refl

    record_run-returns :
        (source_instance : String) (rows : List Row) (s : Server)
        → All (IsStorable c) rows
        → (record_run w c source_instance rows s).0 ≡ ok (length rows)
    record_run-returns source_instance rows s h =
        let s1 = (start_run w source_instance c.task_name s).1 in
        ap (λ p. p.0)
          (record_run-persisted w c source_instance rows s s.working.next_id
            (start_run-returns source_instance c.task_name s) (persist-returns rows s1 h))
        ∙ on_success-returns s.working.next_id (length rows) (persist w c rows s1).1

    -- If no call of the server fails, the fetch and the transform give `rows`, and `_persist` can
    -- take a parameter for every placeholder from each of them, then the run returns their number,
    -- dry or not.
    pub run-returns :
        (source_instance : String) (fetched : Result (List Row)) (dry_run : Bool) (rows : List Row)
        (s : Server)
        → made w c source_instance fetched ≡ ok rows
        → All (IsStorable c) rows
        → (run w c source_instance fetched dry_run s).0 ≡ ok (length rows)
    run-returns source_instance fetched false rows s is_made h =
        ap (λ p. p.0) (run-record_run w c source_instance fetched rows s is_made)
        ∙ record_run-returns source_instance rows s h
    run-returns source_instance fetched true rows s is_made h =
        ap (λ p. p.0) (run_dry w c source_instance fetched s) ∙ dry_result c fetched rows is_made
