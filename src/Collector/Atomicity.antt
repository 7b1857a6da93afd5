-- ===== src/Collector/Atomicity.antt =====
-- src/collectors/base.py, `run`: what is committed to the fact table when it returns or raises.
use sql_observability.Base.{
  ℕ, ◌≡◌, refl, sym, ap, ◌∙◌, subst, String, Bool, true, false, List, [], ◌∷◌, length, arith, inl,
  inr,
}
use sql_observability.Py.Errors.{Error, Result, ok, err, is_ok, Result-cases}
use sql_observability.Py.Row.{Row, Scalar, project}
use sql_observability.Db.Server.{World, Store, Server, Fact, ◌>>=◌, try_except_else, settle, commit}
use sql_observability.Db.Server.Keeps.{Both, Both-and_then, Both-settle, Keeps-commit}
use sql_observability.Db.Calls.{start_run}
use sql_observability.Db.Merge.{execute_merge}
use sql_observability.Collector.{
  Collector, persist_rows, persist, on_failure, on_success, record_run, run,
}
use sql_observability.Collector.Logging.{start_run-Keeps, on_failure-Keeps, on_success-Keeps}
use sql_observability.Collector.Outcome.{
  made, record_run-steps, record_run-persisted, run-record_run,
}
use sql_observability.Collector.Stored.{table_of, IsMerged, IsMerged-none, persist_rows-IsMerged}

module _ (w : World) (c : Collector) where
  IsMerged-some :
      (rows : List Row) (whole : Bool) (before after : List Fact)
      → IsMerged w c rows whole before after
      → IsMerged w c rows false before after
  IsMerged-some rows whole before after m = record {
    done = m.done;
    rest = m.rest;
    split = m.split;
    batch = m.batch;
    projected = m.projected;
    merged = m.merged;
    complete = λ h. cc;
  }

  execute_merge-committed :
      (params : List Scalar) (s : Server)
      → (execute_merge w c.upsert params s).1.committed ≡ s.committed
  unfolding execute_merge ◌>>=◌
  execute_merge-committed params s = ground arith

  -- Nothing is committed before the loop is through.
  persist_rows-committed :
      (rows : List Row) (s : Server) → (persist_rows w c rows s).1.committed ≡ s.committed
  unfolding persist_rows ◌>>=◌
  persist_rows-committed [] s = refl
  persist_rows-committed (row ∷ rows) s = elim (Result-cases (project c.columns row)) [
    | inr (e, bad) ↦ rw bad refl
    | inl (params, is) ↦
        let rest = persist_rows-committed rows (execute_merge w c.upsert params s).1 in
        rw is (ground (arith, execute_merge-committed params s, rest))
  ]

  -- What holds of both stores once the loop of `_persist` has run on equal tables.
  persist-Both :
      (rows : List Row) (before : List Fact) (s : Server)
      → Both (λ store. table_of w c store ≡ before) s
      → Both (λ store. IsMerged w c rows false before (table_of w c store)) (persist w c rows s).1
  unfolding persist ◌>>=◌
  persist-Both rows before s h =
      let p = persist_rows w c rows s in
      let committed = ap (table_of w c) (persist_rows-committed rows s) ∙ h.0 in
      let working =
        subst (λ t. IsMerged w c rows false t (table_of w c p.1.working)) h.1
          (IsMerged-some rows (is_ok p.0) _ _ (persist_rows-IsMerged w c rows s)) in
      let start : IsMerged w c rows false before (table_of w c p.1.committed) =
        rw committed (IsMerged-none w c rows before) in
      Both-and_then {P = λ store. IsMerged w c rows false before (table_of w c store)} p.0
        (λ _. commit w) p.1 (λ _. Keeps-commit w) (start, working)

  persist-ok :
      (rows : List Row) (s : Server)
      → (persist w c rows s).0 ≡ ok tt
      → ((persist_rows w c rows s).0 ≡ ok tt)
        × ((persist w c rows s).1.committed ≡ (persist_rows w c rows s).1.working)
        × ((persist w c rows s).1.working ≡ (persist_rows w c rows s).1.working)
  unfolding persist ◌>>=◌
  persist-ok rows s h = ground arith

  -- If `_persist` returns, every row is in.
  persist-whole :
      (rows : List Row) (before : List Fact) (s : Server)
      → Both (λ store. table_of w c store ≡ before) s
      → (persist w c rows s).0 ≡ ok tt
      → Both (λ store. IsMerged w c rows true before (table_of w c store)) (persist w c rows s).1
  persist-whole rows before s h returned =
      let (done, committed, working) = persist-ok rows s returned in
      let p = persist_rows w c rows s in
      let merged =
        subst (λ b. IsMerged w c rows b (table_of w c s.working) (table_of w c p.1.working))
          (ap is_ok done) (persist_rows-IsMerged w c rows s) in
      let whole = subst (λ t. IsMerged w c rows true t (table_of w c p.1.working)) h.1 merged in
      (rw committed whole, rw working whole)

  start_run-table :
      (source_instance : String) (before : List Fact) (s : Server)
      → Both (λ store. table_of w c store ≡ before) s
      → Both (λ store. table_of w c store ≡ before) (start_run w source_instance c.task_name s).1
  start_run-table source_instance before s =
      (start_run-Keeps w {P = λ store. table_of w c store ≡ before} source_instance c.task_name
          (λ now store h. h)).at
        s

  pub record_run-unstarted :
      (source_instance : String) (rows : List Row) (s : Server) (e : Error)
      → (start_run w source_instance c.task_name s).0 ≡ err e
      → record_run w c source_instance rows s
        ≡ (err e, (start_run w source_instance c.task_name s).1)
  unfolding record_run ◌>>=◌
  record_run-unstarted source_instance rows s e h = rw h refl

  pub record_run-settled :
      (source_instance : String) (rows : List Row) (s : Server) (run_id : ℕ)
      → (start_run w source_instance c.task_name s).0 ≡ ok run_id
      → let (r, s') = persist w c rows (start_run w source_instance c.task_name s).1 in
        record_run w c source_instance rows s
        ≡ settle r (on_failure w run_id) (λ _. on_success w run_id (length rows)) s'
  unfolding record_run ◌>>=◌ try_except_else
  record_run-settled source_instance rows s run_id h = rw h refl

  -- However a run ends, it has merged some of the first rows, or none.
  record_run-Both :
      (source_instance : String) (rows : List Row) (before : List Fact) (s : Server)
      → Both (λ store. table_of w c store ≡ before) s
      → Both
          (λ store. IsMerged w c rows false before (table_of w c store))
          (record_run w c source_instance rows s).1
  record_run-Both source_instance rows before s h =
      let P = λ (store : Store). IsMerged w c rows false before (table_of w c store) in
      let s1 = (start_run w source_instance c.task_name s).1 in
      let begun = start_run-table source_instance before s h in
      let some_merged = persist-Both rows before s1 begun in
      elim (Result-cases (start_run w source_instance c.task_name s).0) [
        | inr (e, failed) ↦
            subst (λ (p : Result ℕ × Server). Both P p.1)
              (sym (record_run-unstarted source_instance rows s e failed))
              (
                rw begun.0 (IsMerged-none w c rows before),
                rw begun.1 (IsMerged-none w c rows before),
              )
        | inl (run_id, started) ↦
            subst (λ (p : Result ℕ × Server). Both P p.1)
              (sym (record_run-settled source_instance rows s run_id started))
              (Both-settle {P = P} (persist w c rows s1).0 (on_failure w run_id)
                (λ _. on_success w run_id (length rows)) (persist w c rows s1).1
                (λ e. on_failure-Keeps w {P = P} run_id e (λ now m store k. k))
                (λ _. on_success-Keeps w {P = P} run_id (length rows) (λ now store k. k))
                some_merged)
      ]

  -- A run that returns has merged them all.
  record_run-whole :
      (source_instance : String) (rows : List Row) (before : List Fact) (s : Server) (n : ℕ)
      → Both (λ store. table_of w c store ≡ before) s
      → (record_run w c source_instance rows s).0 ≡ ok n
      → Both
          (λ store. IsMerged w c rows true before (table_of w c store))
          (record_run w c source_instance rows s).1
  record_run-whole source_instance rows before s n h returned =
      let P = λ (store : Store). IsMerged w c rows true before (table_of w c store) in
      let (run_id, started, stored) = record_run-steps w c source_instance rows s n returned in
      let s1 = (start_run w source_instance c.task_name s).1 in
      let begun = start_run-table source_instance before s h in
      subst (λ (p : Result ℕ × Server). Both P p.1)
        (sym (record_run-persisted w c source_instance rows s run_id started stored))
        ((on_success-Keeps w {P = P} run_id (length rows) (λ now store k. k)).at _
          (persist-whole rows before s1 begun stored))

  -- When a run that is not dry begins with no transaction open and its fetch and transform give
  -- `rows`, then whichever calls of the server fail: what is committed to the fact table afterwards
  -- is the old table with the first few rows merged in, in order, each by the MERGE of the
  -- collector, and with every row merged in if the run returns.
  pub run-IsMerged :
      (source_instance : String) (fetched : Result (List Row)) (rows : List Row) (s : Server)
      → s.committed ≡ s.working
      → made w c source_instance fetched ≡ ok rows
      → let (r, s') = run w c source_instance fetched false s in
        IsMerged w c rows (is_ok r) (table_of w c s.working) (table_of w c s'.committed)
  run-IsMerged source_instance fetched rows s fresh is_made =
      let before = table_of w c s.working in
      let same : Both (λ store. table_of w c store ≡ before) s = (ap (table_of w c) fresh, refl) in
      subst
        (λ (p : Result ℕ × Server).
          IsMerged w c rows (is_ok p.0) before (table_of w c p.1.committed))
        (sym (run-record_run w c source_instance fetched rows s is_made))
        (elim (Result-cases (record_run w c source_instance rows s).0) [
          | inl (n, returned) ↦
              rw returned (record_run-whole source_instance rows before s n same returned).0
          | inr (e, raised) ↦ rw raised (record_run-Both source_instance rows before s same).0
        ])
