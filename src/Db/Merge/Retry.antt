-- ===== src/Db/Merge/Retry.antt =====
-- A batch of MERGE statements that was cut short, and then sent as a whole.
use sql_observability.Base.{◌≡◌, refl, sym, ap, ◌∙◌, Bool, List, [], ◌∷◌, ◌++◌, map, All}
use mathlib.Core.List.{map-append}
use sql_observability.Py.Row.{Scalar}
use sql_observability.Db.Server.{World, Fact, Merge}
use sql_observability.Db.Merge.{bind, matches, assign, inserted, merge_batch}
use sql_observability.Db.Merge.Batch.{upsert, upsert_all}
use sql_observability.Db.Merge.Twice.{IsConsistent, IsKeyed, merge_batch-merge_batch}

upsert_all-append :
    {R : Type 0} (hit : R → R → Bool) (assign : R → R → R) (insert : R → R) (xs ys table : List R)
    → upsert_all hit assign insert (xs ++ ys) table
      ≡ upsert_all hit assign insert ys (upsert_all hit assign insert xs table)
unfolding upsert_all
upsert_all-append hit assign insert [] ys table = refl
upsert_all-append hit assign insert (x ∷ xs) ys table =
    upsert_all-append hit assign insert xs ys (upsert hit assign insert x table)

pub merge_batch-append :
    (w : World) (m : Merge) (xs ys : List (List Scalar)) (table : List Fact)
    → merge_batch w m (xs ++ ys) table ≡ merge_batch w m ys (merge_batch w m xs table)
unfolding merge_batch
merge_batch-append w m xs ys table =
    ap (λ rs. upsert_all (matches w m.on) (assign m.update) (inserted m.insert) rs table)
      (map-append (bind m.source) xs ys)
    ∙ upsert_all-append (matches w m.on) (assign m.update) (inserted m.insert)
        (map (bind m.source) xs) (map (bind m.source) ys) table

-- The tuples that were sent before the batch was cut short leave no trace.
pub merge_batch-retry :
    (w : World) (m : Merge) (xs ys : List (List Scalar)) (table : List Fact)
    → IsConsistent m
    → All (IsKeyed w m) xs
    → merge_batch w m (xs ++ ys) (merge_batch w m xs table) ≡ merge_batch w m (xs ++ ys) table
merge_batch-retry w m xs ys table consistent keyed =
    merge_batch-append w m xs ys (merge_batch w m xs table)
    ∙ ap (merge_batch w m ys) (merge_batch-merge_batch w m xs table consistent keyed)
    ∙ sym (merge_batch-append w m xs ys table)
