-- ===== src/Db/Merge/Batch.antt =====
-- Upserts in general: rows are matched by `hit`, changed by `assign` and added by `insert`.
use sql_observability.Base.{Bool, List, [], ◌∷◌, ◌++◌, any, map, if◌then◌else◌}

module _ {R : Type 0} (hit : R → R → Bool) (assign : R → R → R) (insert : R → R) where
  -- What one source row makes of one row of the table.
  abbrev pub step : R → R → R
  step r x = if hit x r then assign x r else x

  unfoldable pub upsert : R → List R → List R
  upsert r table = if any (λ x. hit x r) table then map (step r) table else table ++ insert r ∷ []

  unfoldable pub upsert_all : List R → List R → List R
  unfolding upsert
  upsert_all [] table = table
  upsert_all (r ∷ rs) table = upsert_all rs (upsert r table)
