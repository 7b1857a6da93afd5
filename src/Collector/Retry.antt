-- ===== src/Collector/Retry.antt =====
-- src/collectors/base.py, `run`: a run that is repeated after one that raised or returned.
use mathlib.Core.List.{append-nil}
use sql_observability.Base.{
  ◌≡◌, refl, sym, ap, ap₂, ◌∙◌, subst, ℕ, String, Bool, true, false, List, [], ◌∷◌, ◌++◌, All,
  All-append_left,
}
use sql_observability.Py.Errors.{Result, ok, is_ok, traverse, >>=-eq-ok, ok_inj}
use sql_observability.Py.Row.{Row, Scalar, project}
use sql_observability.Db.Server.{World, Server, Fact, Merge, roll_back}
use sql_observability.Db.Merge.{merge_batch}
use sql_observability.Db.Merge.Twice.{IsConsistent, IsKeyed}
use sql_observability.Db.Merge.Retry.{merge_batch-retry}
use sql_observability.Collector.{Collector, run}
use sql_observability.Collector.Outcome.{made}
use sql_observability.Collector.Stored.{table_of, IsMerged}
use sql_observability.Collector.Atomicity.{run-IsMerged}

-- A comprehension over two lists, one after the other.
traverse-append :
    {A B : Type 0} (f : A → Result B) (xs ys : List A) (out left : List B)
    → traverse f (xs ++ ys) ≡ ok out
    → traverse f xs ≡ ok left
    → (right : List B) × (out ≡ left ++ right) × (traverse f ys ≡ ok right)
traverse-append f [] ys out [] h k = (out, refl, h)
traverse-append f [] ys out (v ∷ left) h k = absurd (cc)
traverse-append {B = B} f (x ∷ xs) ys out left h k =
    let (v, e, h1) = >>=-eq-ok (f x) _ h in
    let (rest, e1, h2) = >>=-eq-ok (traverse f (xs ++ ys)) _ h1 in
    let (u, e2, k1) = >>=-eq-ok (f x) _ k in
    let (most, e3, k2) = >>=-eq-ok (traverse f xs) _ k1 in
    let (right, splits, e4) = traverse-append f xs ys rest most e1 e3 in
    (
      right,
      sym (ok_inj h2)
          ∙ ap₂ (λ (y : B) (zs : List B). y ∷ zs) (ok_inj (sym e ∙ e2)) splits
          ∙ ap (λ (zs : List B). zs ++ right) (ok_inj k2),
      e4,
    )

module _ (w : World) (c : Collector) (rows : List Row) (batch : List (List Scalar))
    (projected : traverse (project c.columns) rows ≡ ok batch) where
  -- Some first tuples of the batch are merged.
  IsMerged-prefix :
      (whole : Bool) (before after : List Fact)
      → IsMerged w c rows whole before after
      → (xs : List (List Scalar)) × (ys : List (List Scalar)) × (batch ≡ xs ++ ys)
        × (after ≡ merge_batch w c.upsert xs before)
  IsMerged-prefix whole before after m =
      let (ys, splits, _) =
        traverse-append (project c.columns) m.done m.rest batch m.batch
          (subst (λ rs. traverse (project c.columns) rs ≡ ok batch) m.split projected)
          m.projected in
      (m.batch, ys, splits, m.merged)

  IsMerged-whole :
      (before after : List Fact)
      → IsMerged w c rows true before after
      → after ≡ merge_batch w c.upsert batch before
  IsMerged-whole before after m =
      let every : rows ≡ m.done =
        m.split ∙ ap (λ (rs : List Row). m.done ++ rs) (m.complete refl) ∙ append-nil m.done in
      let same = ok_inj (
        sym m.projected
        ∙ subst (λ rs. traverse (project c.columns) rs ≡ ok batch) every projected) in
      m.merged ∙ ap (λ b. merge_batch w c.upsert b before) same

-- However the first run ended, the second leaves what one run leaves, if both make the same rows.
pub run-retry :
    (w : World) (c again : Collector) (source_instance : String)
    (fetched fetched_again : Result (List Row)) (rows : List Row) (batch : List (List Scalar))
    (s : Server) (n : ℕ)
    → (again.upsert ≡ c.upsert) × (again.columns ≡ c.columns)
    → IsConsistent c.upsert
    → s.committed ≡ s.working
    → (made w c source_instance fetched ≡ ok rows)
      × (made w again source_instance fetched_again ≡ ok rows)
    → traverse (project c.columns) rows ≡ ok batch
    → All (IsKeyed w c.upsert) batch
    → (run w again source_instance fetched_again false
        (roll_back (run w c source_instance fetched false s).1)).0
      ≡ ok n
    → let s1 = roll_back (run w c source_instance fetched false s).1 in
      let s2 = (run w again source_instance fetched_again false s1).1 in
      table_of w c s2.committed ≡ merge_batch w c.upsert batch (table_of w c s.working)
run-retry w c again source_instance fetched fetched_again rows batch s n (upserts, columns)
      consistent fresh (is_made, is_made_again) projected keyed returned =
    let s1 = roll_back (run w c source_instance fetched false s).1 in
    let p2 = run w again source_instance fetched_again false s1 in
    let (xs, ys, splits, first) =
      IsMerged-prefix w c rows batch projected _ _ _
        (run-IsMerged w c source_instance fetched rows s fresh is_made) in
    let (keyed_xs, _) =
      All-append_left (IsKeyed w c.upsert) xs ys (subst (All (IsKeyed w c.upsert)) splits keyed) in
    let second =
      IsMerged-whole w again rows batch
        (subst (λ cs. traverse (project cs) rows ≡ ok batch) (sym columns) projected) _ _
        (subst
          (λ b.
            IsMerged w again rows b (table_of w again s1.working) (table_of w again p2.1.committed))
          (ap is_ok returned)
          (run-IsMerged w again source_instance fetched_again rows s1 refl is_made_again)) in
    let stored =
      subst
        (λ (u : Merge).
          p2.1.committed.facts u.target ≡ merge_batch w u batch (s1.working.facts u.target))
        upserts second in
    stored
    ∙ ap (merge_batch w c.upsert batch) first
    ∙ ap (λ b. merge_batch w c.upsert b (merge_batch w c.upsert xs (table_of w c s.working))) splits
    ∙ merge_batch-retry w c.upsert xs ys (table_of w c s.working) consistent keyed_xs
    ∙ ap (λ b. merge_batch w c.upsert b (table_of w c s.working)) (sym splits)
