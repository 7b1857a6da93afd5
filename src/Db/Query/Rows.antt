-- ===== src/Db/Query/Rows.antt =====
-- The rows of src/db.py, `execute`, against the tuples of the cursor.
use sql_observability.Base.{
  ◌≡◌, refl, sym, ap, ◌∙◌, subst, String, false, some, List, [], ◌∷◌, ◌++◌, append_assoc,
  append-nil, All, contains, ◌==◌, eq_iff, eq_refl, Bool-cases, or-eq-false, inl, inr, arith,
  length, all, nat_beq,
}
use sql_observability.Py.Errors.{ok, traverse, >>=-eq-ok, ok_inj, is_ok}
use sql_observability.Py.Row.{Scalar, Row, put, keys, item, project}
use sql_observability.Db.Query.{Source, zip_strict, dict_onto, row_of, execute}

-- No column has the name of a later one.
abbrev pub IsDistinct : List String → Type 0
IsDistinct [] = Unit
IsDistinct (c ∷ cs) = (contains cs c ≡ false) × IsDistinct cs

put-new :
    (c : String) (v : Scalar) (r : Row) → contains (keys r) c ≡ false → put c v r ≡ r ++ (c, v) ∷ []
put-new c v [] h = refl
put-new c v ((k, u) ∷ r) h = ground (arith, put-new c v r)

abbrev named : List (String × Scalar) → List String
named pairs = keys pairs

contains-append :
    (cs ds : List String) (c : String)
    → contains cs c ≡ false
    → contains ds c ≡ false
    → contains (cs ++ ds) c ≡ false
contains-append [] ds c h k = k
contains-append (b ∷ cs) ds c h k = ground (arith, contains-append cs ds c)

keys-append : (r s : Row) → keys (r ++ s) ≡ keys r ++ keys s
keys-append [] s = refl
keys-append ((k, v) ∷ r) s = ap (λ ks. k ∷ ks) (keys-append r s)

-- No name of the second list is in the first.
abbrev Apart : List String → List String → Type 0
Apart cs [] = Unit
Apart cs (d ∷ ds) = (contains cs d ≡ false) × Apart cs ds

beq-sym_false : (a b : String) → (a == b) ≡ false → (b == a) ≡ false
beq-sym_false a b h = elim (Bool-cases (b == a)) [
  | inl same ↦
      let clash = subst (λ x. (a == x) ≡ false) ((eq_iff b a).0 same) h in
      let reflexive = eq_refl a in absurd (cc)
  | inr other ↦ other
]

Apart-snoc :
    (cs ds : List String) (c : String)
    → contains ds c ≡ false
    → Apart cs ds
    → Apart (cs ++ c ∷ []) ds
Apart-snoc cs [] c h apart = tt
Apart-snoc cs (d ∷ ds) c h apart =
    let (this, others) = or-eq-false (d == c) _ h in
    let miss = beq-sym_false d c this in
    (contains-append cs (c ∷ []) d apart.0 (rw miss refl), Apart-snoc cs ds c others apart.1)

dict_onto-append :
    (r : Row) (pairs : List (String × Scalar))
    → IsDistinct (keys pairs)
    → Apart (keys r) (keys pairs)
    → dict_onto r pairs ≡ r ++ pairs
dict_onto-append r [] distinct apart = sym (append-nil r)
dict_onto-append r ((c, v) ∷ pairs) distinct apart =
    ap (λ x. dict_onto x pairs) (put-new c v r apart.0)
    ∙ dict_onto-append (r ++ (c, v) ∷ []) pairs distinct.1 (
        subst (λ ks. Apart ks (keys pairs)) (sym (keys-append r ((c, v) ∷ [])))
          (Apart-snoc (keys r) (keys pairs) c distinct.0 apart.1))
    ∙ append_assoc r ((c, v) ∷ []) pairs

Apart-nil : (ds : List String) → Apart [] ds
Apart-nil [] = tt
Apart-nil (d ∷ ds) = (refl, Apart-nil ds)

keys-zip_strict :
    (cs : List String) (vs : List Scalar) (pairs : List (String × Scalar))
    → zip_strict cs vs ≡ ok pairs
    → keys pairs ≡ cs
keys-zip_strict [] [] pairs h = rw (← ok_inj h) refl
keys-zip_strict [] (v ∷ vs) pairs h = absurd (cc)
keys-zip_strict (c ∷ cs) [] pairs h = absurd (cc)
keys-zip_strict (c ∷ cs) (v ∷ vs) pairs h =
    let (rest, e, h1) = >>=-eq-ok (zip_strict cs vs) _ h in
    subst (λ p. keys p ≡ c ∷ cs) (ok_inj h1) (ap (λ ks. c ∷ ks) (keys-zip_strict cs vs rest e))

-- A tuple with a value for each of the columns makes a row with these keys, in their order.
pub row_of-keys :
    (cs : List String) (vs : List Scalar) (r : Row)
    → IsDistinct cs
    → row_of cs vs ≡ ok r
    → (keys r ≡ cs) × (zip_strict cs vs ≡ ok r)
unfolding row_of
row_of-keys cs vs r distinct h =
    let (pairs, e, h1) = >>=-eq-ok (zip_strict cs vs) _ h in
    let named_so = keys-zip_strict cs vs pairs e in
    let whole =
      dict_onto-append [] pairs (subst IsDistinct (sym named_so) distinct)
        (Apart-nil (keys pairs)) in
    let same = sym whole ∙ ok_inj h1 in (ap keys (sym same) ∙ named_so, e ∙ ap ok same)

skip-project :
    (cs : List String) (c : String) (v : Scalar) (r : Row)
    → contains cs c ≡ false
    → project cs ((c, v) ∷ r) ≡ project cs r
skip-project [] c v r h = refl
skip-project (d ∷ cs) c v r h =
    let (this, others) = or-eq-false (d == c) _ h in
    let miss = beq-sym_false d c this in
    let same : item ((c, v) ∷ r) d ≡ item r d = rw (item, miss) refl in
    rw (same, skip-project cs c v r others) refl

project-zip_strict :
    (cs : List String) (vs : List Scalar) (r : Row)
    → IsDistinct cs
    → zip_strict cs vs ≡ ok r
    → project cs r ≡ ok vs
project-zip_strict [] [] r distinct h = refl
project-zip_strict [] (v ∷ vs) r distinct h = absurd (cc)
project-zip_strict (c ∷ cs) [] r distinct h = absurd (cc)
project-zip_strict (c ∷ cs) (v ∷ vs) r distinct h =
    let (rest, e, h1) = >>=-eq-ok (zip_strict cs vs) _ h in
    let here : item ((c, v) ∷ rest) c ≡ ok v = rw (item, eq_refl c) refl in
    let there = skip-project cs c v rest distinct.0 ∙ project-zip_strict cs vs rest distinct.1 e in
    subst (λ x. project (c ∷ cs) x ≡ ok (v ∷ vs)) (ok_inj h1) (rw (here, there) refl)

rows_of-project :
    (cs : List String) (tuples : List (List Scalar)) (rows : List Row)
    → IsDistinct cs
    → traverse (row_of cs) tuples ≡ ok rows
    → All (λ r. keys r ≡ cs) rows × (traverse (project cs) rows ≡ ok tuples)
rows_of-project cs [] [] distinct h = (tt, refl)
rows_of-project cs [] (r ∷ rows) distinct h = absurd (cc)
rows_of-project cs (vs ∷ tuples) rows distinct h =
    let (r, e, h1) = >>=-eq-ok (row_of cs vs) _ h in
    let (rest, e2, h2) = >>=-eq-ok (traverse (row_of cs) tuples) _ h1 in
    let (is_keys, zipped) = row_of-keys cs vs r distinct e in
    let (all_keys, back) = rows_of-project cs tuples rest distinct e2 in
    let first = project-zip_strict cs vs r distinct zipped in
    subst (λ x. All (λ q. keys q ≡ cs) x × (traverse (project cs) x ≡ ok (vs ∷ tuples))) (ok_inj h2)
      ((is_keys, all_keys), rw (first, back) refl)

-- If the columns of the result set have different names and `execute` succeeds, each of its rows has
-- the columns as keys, in their order, and reading every row by the columns gives the tuples of the
-- cursor again.
pub execute-project :
    (source : Source) (query : String) (columns : List String) (tuples : List (List Scalar))
    (rows : List Row)
    → source query ≡ ok (record { description = some columns; rows = tuples })
    → IsDistinct columns
    → execute source query ≡ ok rows
    → All (λ r. keys r ≡ columns) rows × (traverse (project columns) rows ≡ ok tuples)
unfolding execute
execute-project source query columns tuples rows answered distinct h =
    rows_of-project columns tuples rows distinct (rw answered at h)

zip_strict-is_ok :
    (cs : List String) (vs : List Scalar)
    → is_ok (zip_strict cs vs) ≡ nat_beq (length cs) (length vs)
zip_strict-is_ok [] [] = refl
zip_strict-is_ok [] (v ∷ vs) = ground arith
zip_strict-is_ok (c ∷ cs) [] = ground arith
zip_strict-is_ok (c ∷ cs) (v ∷ vs) = ground (arith, zip_strict-is_ok cs vs)

row_of-is_ok :
    (cs : List String) (vs : List Scalar) → is_ok (row_of cs vs) ≡ nat_beq (length cs) (length vs)
unfolding row_of
row_of-is_ok cs vs = ground (arith, zip_strict-is_ok cs vs)

rows_of-is_ok :
    (cs : List String) (tuples : List (List Scalar))
    → is_ok (traverse (row_of cs) tuples) ≡ all (λ vs. nat_beq (length cs) (length vs)) tuples
rows_of-is_ok cs [] = refl
rows_of-is_ok cs (vs ∷ tuples) = ground (arith, row_of-is_ok cs vs, rows_of-is_ok cs tuples)

-- A statement with a result set gives rows exactly if each of its tuples has a value for each
-- column.
pub execute-is_ok :
    (source : Source) (query : String) (columns : List String) (tuples : List (List Scalar))
    → source query ≡ ok (record { description = some columns; rows = tuples })
    → is_ok (execute source query) ≡ all (λ vs. nat_beq (length columns) (length vs)) tuples
unfolding execute
execute-is_ok source query columns tuples answered = rw answered (rows_of-is_ok columns tuples)
