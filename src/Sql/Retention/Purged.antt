-- ===== src/Sql/Retention/Purged.antt =====
-- What the purge leaves.
use package.native.Mathlib.Nat.{le_trans, le-div_iff_mul-le, div-mul-le_self}
use Prim.Native.Nat.{◌/◌}
use sql_observability.Base.{
  ℕ, zero, suc, ◌+◌, ◌≤◌, ◌<◌, ◌≡◌, refl, sym, ap, subst, Bool, true, not, some, List, [], ◌∷◌,
  length, keep, nat_beq, nat_beq→eq, Bool-cases, inl, inr, arith,
}
use sql_observability.Py.Row.{Scalar, null, int, text, time, day, millis, opaque}
use sql_observability.Db.Server.{Fact}
use sql_observability.Sql.Retention.{delete_top, purge, Window, is_before, is_old, purge_table}

module _ {R : Type 0} where
  delete_top-length :
      (n : ℕ) (old : R → Bool) (rows : List R)
      → length (delete_top n old rows).0 + (delete_top n old rows).1 ≡ length rows
  unfolding delete_top
  delete_top-length n old [] = refl
  delete_top-length zero old (r ∷ rows) = omega arith
  delete_top-length (suc n) old (r ∷ rows) =
      ground (arith, delete_top-length n old rows, delete_top-length (suc n) old rows)

  -- A delete that removes nothing has found no old row.
  delete_top-zero :
      (n : ℕ) (old : R → Bool) (rows : List R)
      → (delete_top (suc n) old rows).1 ≡ 0
      → ((delete_top (suc n) old rows).0 ≡ rows) × (keep (λ r. not (old r)) rows ≡ rows)
  unfolding delete_top
  delete_top-zero n old [] h = (refl, refl)
  delete_top-zero n old (r ∷ rows) h = elim (Bool-cases (old r)) [
    | inl dropped ↦ absurd (ground (arith, dropped, h))
    | inr stays ↦
        let (same, all_stay) = delete_top-zero n old rows (rw stays at h) in
        (rw (stays, same) refl, rw (stays, all_stay) refl)
  ]

  -- What a delete removes would be removed later as well.
  delete_top-keep :
      (n : ℕ) (old later : R → Bool) (rows : List R)
      → ((r : R) → old r ≡ true → later r ≡ true)
      → keep (λ r. not (later r)) (delete_top n old rows).0 ≡ keep (λ r. not (later r)) rows
  unfolding delete_top
  delete_top-keep n old later [] grows = refl
  delete_top-keep zero old later (r ∷ rows) grows = refl
  delete_top-keep (suc n) old later (r ∷ rows) grows = elim (Bool-cases (old r)) [
    | inl dropped ↦ rw (dropped, grows r dropped) (delete_top-keep n old later rows grows)
    | inr stays ↦ rw (stays, delete_top-keep (suc n) old later rows grows) refl
  ]

  module _ (old : ℕ → R → Bool)
      (grows : (i : ℕ) (r : R) → old i r ≡ true → old (suc i) r ≡ true) where
    later_old : (d i : ℕ) (r : R) → old i r ≡ true → old (d + i) r ≡ true
    later_old zero i r h = subst (λ j. old j r ≡ true) (omega arith) h
    later_old (suc d) i r h =
        subst (λ j. old j r ≡ true) (omega arith) (grows (d + i) r (later_old d i r h))

    -- With fuel for every row, the loop ends, and what is left is what the last delete finds new.
    pub purge-keep :
        (fuel n i : ℕ) (rows : List R)
        → length rows < fuel
        → (d : ℕ) × (purge fuel (suc n) old i rows ≡ some (keep (λ r. not (old (d + i) r)) rows))
    unfolding purge
    purge-keep zero n i rows h = absurd (omega arith)
    purge-keep (suc fuel) n i rows h =
        let (left, count) = delete_top (suc n) (old i) rows in
        elim (Bool-cases (nat_beq count 0)) [
          | inl nothing ↦
              let (same, all_stay) = delete_top-zero n (old i) rows (nat_beq→eq count 0 nothing) in
              (
                0,
                rw (nothing, same)
                    (ap some (
                      sym (
                        subst (λ j. keep (λ r. not (old j r)) rows ≡ rows) (omega arith)
                          all_stay))),
              )
          | inr something ↦
              let fewer : length left < fuel =
                ground (arith, delete_top-length (suc n) (old i) rows, h, something) in
              let (d, ends) = purge-keep fuel n (suc i) left fewer in
              (
                suc d,
                rw (something, ends)
                    (ap some (
                      subst
                        (λ j.
                          keep (λ r. not (old (d + suc i) r)) left ≡ keep (λ r. not (old j r)) rows)
                        (omega arith)
                        (delete_top-keep (suc n) (old i) (old (d + suc i)) rows (λ r gone.
                          subst (λ j. old j r ≡ true) (omega arith)
                            (later_old (suc d) i r gone))))),
              )
        ]

div-later : (m n : ℕ) → m ≤ n → m / 86400000000 ≤ n / 86400000000
div-later m n le = (le-div_iff_mul-le (omega arith)).1 (le_trans (div-mul-le_self m 86400000000) le)

is_before-later :
    (days now later : ℕ) (v : Scalar)
    → now ≤ later
    → is_before days now v ≡ true
    → is_before days later v ≡ true
is_before-later days now later null le h = absurd (cc)
is_before-later days now later (int n) le h = absurd (cc)
is_before-later days now later (text s) le h = absurd (cc)
is_before-later days now later (time t) le h = ground (arith, le, h)
is_before-later days now later (day d) le h = ground (arith, div-later now later le, h)
is_before-later days now later (millis n) le h = absurd (cc)
is_before-later days now later (opaque n) le h = absurd (cc)

-- For each of the script's tables, with a clock that does not go back: the loop of batched deletes
-- ends, and what it leaves are the rows, in their order, that are not older than the window at
-- some time of the clock. Rows without a time stay.
pub purge_table-keep :
    (now : ℕ → ℕ) (w : Window) (rows : List Fact)
    → ((i : ℕ) → now i ≤ now (suc i))
    → (last : ℕ) × (purge_table now w rows ≡ some (keep (λ r. not (is_old w (now last) r)) rows))
unfolding purge_table
purge_table-keep now w rows forward =
    let (d, ends) =
      purge-keep (λ i. is_old w (now i))
        (λ i r h. is_before-later w.days (now i) (now (suc i)) (r w.column) (forward i) h)
        (suc (length rows)) 4999 0 rows (omega arith) in
    (d + 0, ends)
