-- ===== src/Collector/Stored.antt =====
-- src/collectors/base.py, `_persist`: what reaches the fact table, whichever calls fail.
use sql_observability.Base.{
  ◌≡◌, refl, sym, ap, subst, Bool, true, false, List, [], ◌∷◌, ◌++◌, eq_refl, arith, inl, inr,
}
use sql_observability.Py.Errors.{Error, Result, ok, err, is_ok, traverse, Result-cases}
use sql_observability.Py.Row.{Row, Scalar, project}
use sql_observability.Db.Server.{World, Store, Server, Fact, ◌>>=◌ as ◌then◌}
use sql_observability.Db.Merge.{merge_row, merge_batch, execute_merge, bind}
use sql_observability.Collector.{Collector, persist_rows}

module _ (w : World) (c : Collector) where
  -- The table of the collector.
  abbrev pub table_of : Store → List Fact
  table_of store = store.facts c.upsert.target

  -- `after` is `before` with the first few of `rows` merged in: all of them if `whole`.
  pub record IsMerged (rows : List Row) (whole : Bool) (before after : List Fact) : Type 0 where
    pub done : List Row
    pub rest : List Row
    pub split : rows ≡ done ++ rest
    pub batch : List (List Scalar)
    pub projected : traverse (project c.columns) done ≡ ok batch
    pub merged : after ≡ merge_batch w c.upsert batch before
    pub complete : whole ≡ true → rest ≡ []

  pub IsMerged-none : (rows : List Row) (t : List Fact) → IsMerged rows false t t
  unfolding merge_batch
  IsMerged-none rows t = record {
    done = [];
    rest = rows;
    split = refl;
    batch = [];
    projected = refl;
    merged = refl;
    complete = λ h. cc;
  }

  IsMerged-nil : (t : List Fact) → IsMerged [] true t t
  unfolding merge_batch
  IsMerged-nil t = record {
    done = [];
    rest = [];
    split = refl;
    batch = [];
    projected = refl;
    merged = refl;
    complete = λ h. refl;
  }

  IsMerged-cons :
      (row : Row) (rows : List Row) (params : List Scalar) (whole : Bool) (before after : List Fact)
      → project c.columns row ≡ ok params
      → IsMerged rows whole (merge_row w c.upsert (bind c.upsert.source params) before) after
      → IsMerged (row ∷ rows) whole before after
  unfolding merge_batch
  IsMerged-cons row rows params whole before after is m = record {
    done = row ∷ m.done;
    rest = m.rest;
    split = ap (λ (rs : List Row). row ∷ rs) m.split;
    batch = params ∷ m.batch;
    projected = rw (is, m.projected) refl;
    merged = m.merged;
    complete = m.complete;
  }

  execute_merge-table :
      (params : List Scalar) (s : Server)
      → (execute_merge w c.upsert params s).0 ≡ ok tt
      → table_of (execute_merge w c.upsert params s).1.working
        ≡ merge_row w c.upsert (bind c.upsert.source params) (table_of s.working)
  unfolding execute_merge ◌then◌
  execute_merge-table params s h = ground (arith, eq_refl c.upsert.target)

  execute_merge-table_failed :
      (params : List Scalar) (s : Server) (e : Error)
      → (execute_merge w c.upsert params s).0 ≡ err e
      → table_of (execute_merge w c.upsert params s).1.working ≡ table_of s.working
  unfolding execute_merge ◌then◌
  execute_merge-table_failed params s e h = ground arith

  -- One round of the loop, by what the row and the statement give.
  persist_rows-unprojected :
      (row : Row) (rows : List Row) (s : Server) (e : Error)
      → project c.columns row ≡ err e
      → persist_rows w c (row ∷ rows) s ≡ (err e, s)
  unfolding persist_rows ◌then◌
  persist_rows-unprojected row rows s e h = rw h refl

  persist_rows-refused :
      (row : Row) (rows : List Row) (params : List Scalar) (s : Server) (e : Error)
      → project c.columns row ≡ ok params
      → (execute_merge w c.upsert params s).0 ≡ err e
      → persist_rows w c (row ∷ rows) s ≡ (err e, (execute_merge w c.upsert params s).1)
  unfolding persist_rows ◌then◌
  persist_rows-refused row rows params s e h k = rw (h, k) refl

  pub persist_rows-stored :
      (row : Row) (rows : List Row) (params : List Scalar) (s : Server)
      → project c.columns row ≡ ok params
      → (execute_merge w c.upsert params s).0 ≡ ok tt
      → persist_rows w c (row ∷ rows) s
        ≡ persist_rows w c rows (execute_merge w c.upsert params s).1
  unfolding persist_rows ◌then◌
  persist_rows-stored row rows params s h k = rw (h, k) refl

  -- How a loop that began at `before` ended.
  abbrev pub Merges : List Row → List Fact → Result (Unit {0}) × Server → Type 0
  Merges rows before p = IsMerged rows (is_ok p.0) before (table_of p.1.working)

  pub persist_rows-IsMerged :
      (rows : List Row) (s : Server) → Merges rows (table_of s.working) (persist_rows w c rows s)
  unfolding persist_rows ◌then◌
  persist_rows-IsMerged [] s = IsMerged-nil (table_of s.working)
  persist_rows-IsMerged (row ∷ rows) s = elim (Result-cases (project c.columns row)) [
    | inr (e, bad) ↦
        subst (Merges (row ∷ rows) (table_of s.working))
          (sym (persist_rows-unprojected row rows s e bad))
          (IsMerged-none (row ∷ rows) (table_of s.working))
    | inl (params, is) ↦
        let s1 = (execute_merge w c.upsert params s).1 in
        elim (Result-cases (execute_merge w c.upsert params s).0) [
          | inr (e, refused) ↦
              subst (Merges (row ∷ rows) (table_of s.working))
                (sym (persist_rows-refused row rows params s e is refused))
                (rw (execute_merge-table_failed params s e refused)
                  (IsMerged-none (row ∷ rows) (table_of s.working)))
          | inl (tt, stored) ↦
              subst (Merges (row ∷ rows) (table_of s.working))
                (sym (persist_rows-stored row rows params s is stored))
                (IsMerged-cons row rows params _ _ _ is (
                  subst
                    (λ t.
                      IsMerged rows (is_ok (persist_rows w c rows s1).0) t
                        (table_of (persist_rows w c rows s1).1.working))
                    (execute_merge-table params s stored) (persist_rows-IsMerged rows s1)))
        ]
  ]
