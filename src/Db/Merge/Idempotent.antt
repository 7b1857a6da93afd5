-- ===== src/Db/Merge/Idempotent.antt =====
-- Running a batch of upserts twice leaves what running it once leaves.
use mathlib.Core.List.{map-id, map-map}
use sql_observability.Base.{
  ◌≡◌, refl, sym, ap, subst, ◌∙◌, Bool, true, false, List, [], ◌∷◌, ◌++◌, append_assoc, append-nil,
  any, map, All, All-append, Bool-cases, inl, inr, arith, ◌||◌, or-eq-false,
}
use sql_observability.Db.Merge.Batch.{step, upsert, upsert_all}

module _ {R : Type 0} (hit : R → R → Bool) (assign : R → R → R) (insert : R → R)
    (hit-assign : (x r s : R) → hit (assign x r) s ≡ hit x s)
    (assign-assign : (x r s : R) → assign (assign x r) s ≡ assign x s) where
  -- What a batch makes of one row of the table.
  abbrev rewrite_row : List R → R → R
  rewrite_row [] x = x
  rewrite_row (r ∷ rs) x = rewrite_row rs (step hit assign insert r x)

  abbrev IsSettled : List R → R → Type 0
  IsSettled rs x = rewrite_row rs x ≡ x

  -- A source row that matches what it inserts, and leaves that as it is.
  abbrev IsStable : R → Type 0
  IsStable r = (hit (insert r) r ≡ true) × (assign (insert r) r ≡ insert r)

  hit-step : (r x s : R) → hit (step hit assign insert r x) s ≡ hit x s
  hit-step r x s = ground (arith, hit-assign x r s)

  assign-step : (r x s : R) → assign (step hit assign insert r x) s ≡ assign x s
  assign-step r x s = ground (arith, assign-assign x r s)

  hit-rewrite : (rs : List R) (x s : R) → hit (rewrite_row rs x) s ≡ hit x s
  hit-rewrite [] x s = refl
  hit-rewrite (r ∷ rs) x s = hit-rewrite rs (step hit assign insert r x) s ∙ hit-step r x s

  assign-rewrite : (rs : List R) (x s : R) → assign (rewrite_row rs x) s ≡ assign x s
  assign-rewrite [] x s = refl
  assign-rewrite (r ∷ rs) x s = assign-rewrite rs (step hit assign insert r x) s ∙ assign-step r x s

  rewrite_row-snoc :
      (rs : List R) (r x : R)
      → rewrite_row (rs ++ r ∷ []) x ≡ step hit assign insert r (rewrite_row rs x)
  rewrite_row-snoc [] r x = refl
  rewrite_row-snoc (q ∷ rs) r x = rewrite_row-snoc rs r (step hit assign insert q x)

  step-IsSettled :
      (rs : List R) (r x : R)
      → IsSettled rs x
      → IsSettled (rs ++ r ∷ []) (step hit assign insert r x)
  step-IsSettled rs r x h = rw (rewrite_row-snoc rs r) (elim (Bool-cases (hit x r)) [
    | inl same ↦ rw same (
        rw (hit-rewrite rs (assign x r) r, hit-assign x r r, same, assign-rewrite rs (assign x r) r)
          (assign-assign x r r))
    | inr other ↦ rw other (rw (h, other) refl)
  ])

  insert-IsSettled : (rs : List R) (r : R) → IsStable r → IsSettled (rs ++ r ∷ []) (insert r)
  insert-IsSettled rs r h =
      rw (rewrite_row-snoc rs r, hit-rewrite rs (insert r) r, h.0, assign-rewrite rs (insert r) r)
        (h.1)

  map-step-IsSettled :
      (rs : List R) (r : R) (table : List R)
      → All (IsSettled rs) table
      → All (IsSettled (rs ++ r ∷ [])) (map (step hit assign insert r) table)
  map-step-IsSettled rs r [] h = tt
  map-step-IsSettled rs r (x ∷ table) h =
      (step-IsSettled rs r x h.0, map-step-IsSettled rs r table h.1)

  step_miss : (r x : R) → hit x r ≡ false → step hit assign insert r x ≡ x
  step_miss r x h = rw h refl

  miss-IsSettled :
      (rs : List R) (r : R) (table : List R)
      → any (λ x. hit x r) table ≡ false
      → All (IsSettled rs) table
      → All (IsSettled (rs ++ r ∷ [])) table
  miss-IsSettled rs r [] miss h = tt
  miss-IsSettled rs r (x ∷ table) miss h =
      let (this, others) = or-eq-false (hit x r) _ miss in
      (
        rewrite_row-snoc rs r x ∙ ap (step hit assign insert r) h.0 ∙ step_miss r x this,
        miss-IsSettled rs r table others h.1,
      )

  upsert-IsSettled :
      (rs : List R) (r : R) (table : List R)
      → IsStable r
      → All (IsSettled rs) table
      → All (IsSettled (rs ++ r ∷ [])) (upsert hit assign insert r table)
  unfolding upsert
  upsert-IsSettled rs r table stable h = elim (Bool-cases (any (λ x. hit x r) table)) [
    | inl found ↦ rw found (map-step-IsSettled rs r table h)
    | inr absent ↦ rw absent (
        All-append (IsSettled (rs ++ r ∷ [])) table (insert r ∷ [])
          (miss-IsSettled rs r table absent h) (insert-IsSettled rs r stable, tt))
  ]

  upsert_all-IsSettled :
      (done rs table : List R)
      → All IsStable rs
      → All (IsSettled done) table
      → All (IsSettled (done ++ rs)) (upsert_all hit assign insert rs table)
  unfolding upsert_all
  upsert_all-IsSettled done [] table stable h = rw append-nil h
  upsert_all-IsSettled done (r ∷ rs) table stable h = rw (← append_assoc done (r ∷ []) rs) (
      upsert_all-IsSettled (done ++ r ∷ []) rs _ stable.1
        (upsert-IsSettled done r table stable.0 h))

  -- every row of the batch meets a row of the table
  abbrev Covers : List R → List R → Type 0
  Covers table rs = All (λ r. any (λ x. hit x r) table ≡ true) rs

  any-map-step :
      (r s : R) (table : List R)
      → any (λ x. hit x s) (map (step hit assign insert r) table) ≡ any (λ x. hit x s) table
  any-map-step r s [] = refl
  any-map-step r s (x ∷ table) = rw (hit-step r x s, any-map-step r s table) refl

  any-snoc :
      (s x : R) (table : List R)
      → any (λ y. hit y s) (table ++ x ∷ []) ≡ (any (λ y. hit y s) table || hit x s)
  any-snoc s x [] = ground arith
  any-snoc s x (y ∷ table) = ground (arith, any-snoc s x table)

  upsert-keeps_hits :
      (r s : R) (table : List R)
      → any (λ x. hit x s) table ≡ true
      → any (λ x. hit x s) (upsert hit assign insert r table) ≡ true
  unfolding upsert
  upsert-keeps_hits r s table h =
      ground (arith, any-map-step r s table, any-snoc s (insert r) table)

  upsert-hits :
      (r : R) (table : List R)
      → IsStable r
      → any (λ x. hit x r) (upsert hit assign insert r table) ≡ true
  unfolding upsert
  upsert-hits r table h = ground (arith, any-map-step r r table, any-snoc r (insert r) table)

  Covers-upsert :
      (r : R) (table rs : List R) → Covers table rs → Covers (upsert hit assign insert r table) rs
  Covers-upsert r table [] h = tt
  Covers-upsert r table (s ∷ rs) h = (upsert-keeps_hits r s table h.0, Covers-upsert r table rs h.1)

  hits-upsert_all :
      (rs : List R) (s : R) (table : List R)
      → any (λ x. hit x s) table ≡ true
      → any (λ x. hit x s) (upsert_all hit assign insert rs table) ≡ true
  unfolding upsert_all
  hits-upsert_all [] s table h = h
  hits-upsert_all (r ∷ rs) s table h =
      hits-upsert_all rs s (upsert hit assign insert r table) (upsert-keeps_hits r s table h)

  Covers-upsert_all :
      (rs table : List R) → All IsStable rs → Covers (upsert_all hit assign insert rs table) rs
  unfolding upsert_all
  Covers-upsert_all [] table h = tt
  Covers-upsert_all (r ∷ rs) table h = (
    hits-upsert_all rs r (upsert hit assign insert r table) (upsert-hits r table h.0),
    Covers-upsert_all rs (upsert hit assign insert r table) h.1,
  )

  upsert_found :
      (r : R) (table : List R)
      → any (λ x. hit x r) table ≡ true
      → upsert hit assign insert r table ≡ map (step hit assign insert r) table
  unfolding upsert
  upsert_found r table h = rw h refl

  -- Once every source row has a match, the batch only rewrites the rows that are there.
  upsert_all-eq-map :
      (rs table : List R)
      → Covers table rs
      → upsert_all hit assign insert rs table ≡ map (rewrite_row rs) table
  unfolding upsert_all upsert
  upsert_all-eq-map [] table h = sym (map-id table)
  upsert_all-eq-map (r ∷ rs) table h =
      let found = upsert_found r table h.0 in
      let covered = subst (λ t. Covers t rs) found (Covers-upsert r table rs h.1) in
      ap (upsert_all hit assign insert rs) found
      ∙ upsert_all-eq-map rs (map (step hit assign insert r) table) covered
      ∙ map-map (rewrite_row rs) (step hit assign insert r) table

  map-IsSettled :
      (rs table : List R) → All (IsSettled rs) table → map (rewrite_row rs) table ≡ table
  map-IsSettled rs [] h = refl
  map-IsSettled rs (x ∷ table) h = rw (h.0, map-IsSettled rs table h.1) refl

  unsettled_by_nothing : (table : List R) → All (IsSettled []) table
  unsettled_by_nothing [] = tt
  unsettled_by_nothing (x ∷ table) = (refl, unsettled_by_nothing table)

  pub upsert_all-upsert_all :
      (rs table : List R)
      → All IsStable rs
      → upsert_all hit assign insert rs (upsert_all hit assign insert rs table)
        ≡ upsert_all hit assign insert rs table
  upsert_all-upsert_all rs table h =
      upsert_all-eq-map rs (upsert_all hit assign insert rs table) (Covers-upsert_all rs table h)
      ∙ map-IsSettled rs _ (upsert_all-IsSettled [] rs table h (unsettled_by_nothing table))
