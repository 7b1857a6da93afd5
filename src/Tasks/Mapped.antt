-- ===== src/Tasks/Mapped.antt =====
-- The comprehension that most collectors share: a dict literal for each row, with the instance, a
-- stamp, and values copied from the source row.
use sql_observability.Base.{
  all, contains, and-eq-true, suc, length, refl, true, false, sym, ◌∙◌, ◌==◌, some, ◌≡◌, ap, String,
  List, [], ◌∷◌, arith, All, subst, inl, inr,
}
use sql_observability.Py.Errors.{ok_inj, Result, ok, ◌>>=◌, traverse, >>=-eq-ok, Result-cases}
use sql_observability.Py.Row.{Scalar, text, Row, item, keys, find, item-keys}

-- `"to": r["from"], ...`
abbrev pub copied : List (String × String) → Row → Result Row
copied [] r = ok []
copied ((to, from) ∷ fields) r = do v ← item r from; rest ← copied fields r; ok ((to, v) ∷ rest)

abbrev pub targets : List (String × String) → List String
targets [] = []
targets ((to, from) ∷ fields) = to ∷ targets fields

-- `{"source_instance": self.source_instance, column: stamp, **copied}`
unfoldable pub stamped : String → String → Scalar → List (String × String) → Row → Result Row
stamped source_instance column stamp fields r = do
  rest ← copied fields r
  ok (("source_instance", text source_instance) ∷ (column, stamp) ∷ rest)

-- The first copied field holds what the source row holds.
pub stamped-find :
    (source_instance column : String) (stamp : Scalar) (to from : String)
    (fields : List (String × String)) (r row : Row) (v : Scalar)
    → ("source_instance" == to) ≡ false
    → (column == to) ≡ false
    → (to == to) ≡ true
    → item r from ≡ ok v
    → stamped source_instance column stamp ((to, from) ∷ fields) r ≡ ok row
    → find to row ≡ some v
unfolding stamped
stamped-find source_instance column stamp to from fields r row v other_key other_stamp same e h =
    let (rest, e1, h1) = >>=-eq-ok (copied ((to, from) ∷ fields) r) _ h in
    let (u, e2, h2) = >>=-eq-ok (item r from) _ e1 in
    let (others, e3, h3) = >>=-eq-ok (copied fields r) _ h2 in
    subst (λ x. find to x ≡ some v) (ok_inj h1)
      (subst
        (λ x. find to (("source_instance", text source_instance) ∷ (column, stamp) ∷ x) ≡ some v)
        (ok_inj h3) (rw (other_key, other_stamp, same) (ap some (ok_inj (sym e2 ∙ e)))))

keys-copied :
    (fields : List (String × String)) (r row : Row)
    → copied fields r ≡ ok row
    → keys row ≡ targets fields
keys-copied [] r row h = cc
keys-copied ((to, from) ∷ fields) r row h = elim (Result-cases (copied fields r)) [
  | inl (rest, e) ↦ ground (arith, keys-copied fields r rest e)
  | inr (x, e) ↦ ground arith
]

pub keys-stamped :
    (source_instance column : String) (stamp : Scalar) (fields : List (String × String))
    (r row : Row)
    → stamped source_instance column stamp fields r ≡ ok row
    → keys row ≡ "source_instance" ∷ column ∷ targets fields
unfolding stamped
keys-stamped source_instance column stamp fields r row h = elim (Result-cases (copied fields r)) [
  | inl (rest, e) ↦ ground (arith, keys-copied fields r rest e)
  | inr (x, e) ↦ ground arith
]

-- The keys that a row's fields are copied from.
abbrev pub sources : List (String × String) → List String
sources [] = []
sources ((to, from) ∷ fields) = from ∷ sources fields

copied-returns :
    (fields : List (String × String)) (r : Row)
    → all (contains (keys r)) (sources fields) ≡ true
    → (row : Row) × (copied fields r ≡ ok row)
copied-returns [] r h = ([], refl)
copied-returns ((to, from) ∷ fields) r h =
    let (this, others) = and-eq-true (contains (keys r) from) _ h in
    let (v, e) = item-keys from r this in
    let (rest, e2) = copied-returns fields r others in ((to, v) ∷ rest, rw (e, e2) refl)

pub stamped-returns :
    (source_instance column : String) (stamp : Scalar) (fields : List (String × String)) (r : Row)
    → all (contains (keys r)) (sources fields) ≡ true
    → (row : Row) × (stamped source_instance column stamp fields r ≡ ok row)
unfolding stamped
stamped-returns source_instance column stamp fields r h =
    let (rest, e) = copied-returns fields r h in
    (("source_instance", text source_instance) ∷ (column, stamp) ∷ rest, rw e refl)

-- A comprehension returns if every element expression does.
pub traverse-returns :
    {A B : Type 0} (f : A → Result B) (xs : List A)
    → All (λ x. (y : B) × (f x ≡ ok y)) xs
    → (ys : List B) × (traverse f xs ≡ ok ys)
traverse-returns f [] h = ([], refl)
traverse-returns f (x ∷ xs) h =
    let (y, e) = h.0 in let (ys, e2) = traverse-returns f xs h.1 in (y ∷ ys, rw (e, e2) refl)

-- A property of every element that a comprehension makes.
pub All-traverse :
    {A B : Type 0} (f : A → Result B) (P : B → Type 0) (xs : List A) (ys : List B)
    → ((x : A) (y : B) → f x ≡ ok y → P y)
    → traverse f xs ≡ ok ys
    → All P ys
All-traverse f P [] [] each h = tt
All-traverse f P [] (y ∷ ys) each h = absurd (cc)
All-traverse f P (x ∷ xs) ys each h =
    let (y, e, h1) = >>=-eq-ok (f x) _ h in
    let (rest, e2, h2) = >>=-eq-ok (traverse f xs) _ h1 in
    subst (All P) (ok_inj h2) (each x y e, All-traverse f P xs rest each e2)

pub length-traverse :
    {A B : Type 0} (f : A → Result B) (xs : List A) (ys : List B)
    → traverse f xs ≡ ok ys
    → length ys ≡ length xs
length-traverse f [] [] h = refl
length-traverse f [] (y ∷ ys) h = absurd (cc)
length-traverse f (x ∷ xs) ys h =
    let (y, e, h1) = >>=-eq-ok (f x) _ h in
    let (rest, e2, h2) = >>=-eq-ok (traverse f xs) _ h1 in
    subst (λ z. length z ≡ suc (length xs)) (ok_inj h2) (ap suc (length-traverse f xs rest e2))

pub stamp_rows-keys :
    (source_instance column : String) (stamp : Scalar) (fields : List (String × String))
    (rows out : List Row)
    → traverse (stamped source_instance column stamp fields) rows ≡ ok out
    → All (λ r. keys r ≡ "source_instance" ∷ column ∷ targets fields) out
stamp_rows-keys source_instance column stamp fields rows out h =
    All-traverse (stamped source_instance column stamp fields) _ rows out
      (keys-stamped source_instance column stamp fields) h
