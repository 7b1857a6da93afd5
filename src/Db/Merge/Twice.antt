-- ===== src/Db/Merge/Twice.antt =====
-- A batch of MERGE statements sent again, as after a run that is repeated.
use sql_observability.Base.{
  All-append_left, all-contains, ◌≡◌, refl, ap₂, ◌∙◌, fun_ext, true, not, and-eq-true, String, List,
  [], ◌∷◌, ◌++◌, map, all, All, contains, Bool-cases, inl, inr, arith,
}
use sql_observability.Py.Row.{Scalar}
use sql_observability.Db.Server.{World, Fact, Key, column, hash_of, Merge}
use sql_observability.Db.Merge.{bind, matches, assign, inserted, merge_batch}
use sql_observability.Db.Merge.Idempotent.{upsert_all-upsert_all}

-- The columns that an ON clause reads.
abbrev pub key_columns : List Key → List String
key_columns [] = []
key_columns (column c ∷ on) = c ∷ key_columns on
key_columns (hash_of cs ∷ on) = cs ++ key_columns on

-- Only columns that are inserted are updated or joined on, and none of these is both.
abbrev pub IsConsistent : Merge → Type 0
IsConsistent m =
    (all (λ c. not (contains m.update c)) (key_columns m.on) ≡ true)
    × (all (contains m.insert) (key_columns m.on) ≡ true)
    × (all (contains m.insert) m.update ≡ true)

abbrev Agree : List String → Fact → Fact → Type 0
Agree cs x y = All (λ c. x c ≡ y c) cs

map-Agree : (cs : List String) (x y : Fact) → Agree cs x y → map x cs ≡ map y cs
map-Agree [] x y h = refl
map-Agree (c ∷ cs) x y h = ap₂ (λ v vs. v ∷ vs) h.0 (map-Agree cs x y h.1)

matches-Agree :
    (w : World) (on : List Key) (x y s : Fact)
    → Agree (key_columns on) x y
    → matches w on x s ≡ matches w on y s
unfolding matches
matches-Agree w [] x y s h = refl
matches-Agree w (column c ∷ on) x y s h = rw (h.0, matches-Agree w on x y s h.1) refl
matches-Agree w (hash_of cs ∷ on) x y s h =
    let (left, right) = All-append_left (λ c. x c ≡ y c) cs (key_columns on) h in
    rw (map-Agree cs x y left, matches-Agree w on x y s right) refl

kept-Agree :
    (update cs : List String) (x r : Fact)
    → all (λ c. not (contains update c)) cs ≡ true
    → Agree cs (assign update x r) x
kept-Agree update [] x r h = tt
kept-Agree update (c ∷ cs) x r h =
    let (this, others) = and-eq-true (not (contains update c)) _ h in
    (ground (arith, this), kept-Agree update cs x r others)

inserted-Agree :
    (insert cs : List String) (r : Fact)
    → all (contains insert) cs ≡ true
    → Agree cs (inserted insert r) r
inserted-Agree insert [] r h = tt
inserted-Agree insert (c ∷ cs) r h =
    let (this, others) = and-eq-true (contains insert c) _ h in
    (ground (arith, this), inserted-Agree insert cs r others)

assign-assign :
    (update : List String) (x r s : Fact) → assign update (assign update x r) s ≡ assign update x s
assign-assign update x r s = fun_ext (λ c. ground arith)

assign-inserted :
    (update insert : List String) (r : Fact)
    → all (contains insert) update ≡ true
    → assign update (inserted insert r) r ≡ inserted insert r
assign-inserted update insert r h = fun_ext (λ c. elim (Bool-cases (contains update c)) [
  | inl updated ↦ rw (updated, all-contains (contains insert) update c h updated) refl
  | inr kept ↦ rw kept refl
])

-- The row of a tuple of parameters joins itself: no value of its key is NULL, and the server finds
-- each of them the same as itself.
abbrev pub IsKeyed : World → Merge → List Scalar → Type 0
IsKeyed w m vs = matches w m.on (bind m.source vs) (bind m.source vs) ≡ true

module _ (w : World) (m : Merge) (consistent : IsConsistent m) where
  stable :
      (batch : List (List Scalar))
      → All (IsKeyed w m) batch
      → All
          (λ r.
            (matches w m.on (inserted m.insert r) r ≡ true)
            × (assign m.update (inserted m.insert r) r ≡ inserted m.insert r))
          (map (bind m.source) batch)
  stable [] h = tt
  stable (vs ∷ batch) h = (
    (
      matches-Agree w m.on _ _ (bind m.source vs)
            (inserted-Agree m.insert (key_columns m.on) (bind m.source vs) consistent.1)
          ∙ h.0,
      assign-inserted m.update m.insert (bind m.source vs) consistent.2,
    ),
    stable batch h.1,
  )

-- If the statement is consistent and every tuple of the batch has a key, sending the batch twice
-- leaves the table as sending it once does.
pub merge_batch-merge_batch :
    (w : World) (m : Merge) (batch : List (List Scalar)) (table : List Fact)
    → IsConsistent m
    → All (IsKeyed w m) batch
    → merge_batch w m batch (merge_batch w m batch table) ≡ merge_batch w m batch table
unfolding merge_batch
merge_batch-merge_batch w m batch table consistent keyed =
    upsert_all-upsert_all (matches w m.on) (assign m.update) (inserted m.insert)
      (λ x r s.
        matches-Agree w m.on _ _ s (kept-Agree m.update (key_columns m.on) x r consistent.0))
      (assign-assign m.update) (map (bind m.source) batch) table (stable w m consistent batch keyed)
