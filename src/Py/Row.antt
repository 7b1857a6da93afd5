-- ===== src/Py/Row.antt =====
-- Rows of a result set: `dict[str, Any]` in insertion order, over the values that pyodbc hands out.
use sql_observability.Base.{
  ◌≡◌, ap, refl, subst, suc, length, Bool-cases, inl, inr, and-eq-true, Bool, true, false, nat_beq,
  nat_beq→eq, eq_iff, eq_refl, arith, all, contains, ℕ, String, Option, none, some, List, [], ◌∷◌,
  ◌==◌, if◌then◌else◌,
}
use sql_observability.Base.Int.{ℤ, pos, negsuc}
use sql_observability.Py.Errors.{Result, ok, err, key_error, type_error, traverse}
use sql_observability.Py.Datetime.{Datetime, aware, naive}

pub data Scalar : Type 0 where
  null : Scalar
  int : ℤ → Scalar
  text : String → Scalar
  time : Datetime → Scalar
  -- a `datetime.date`, by its ordinal
  day : ℕ → Scalar
  -- a float that the program computes as a sum of quotients n / 1000.0, exactly, in thousandths
  millis : ℤ → Scalar
  -- any other object (bytes, Decimal): the program only passes it on
  opaque : ℕ → Scalar

abbrev pub Row : Type 0
Row = List (String × Scalar)

abbrev pub find : String → Row → Option Scalar
find k [] = none
find k ((j, v) ∷ r) = if j == k then some v else find k r

-- `r[k]`
abbrev pub item : Row → String → Result Scalar
item r k = elim (find k r) [ none ↦ err (key_error k) | some v ↦ ok v ]

-- `r[k] = v`
abbrev pub put : String → Scalar → Row → Row
put k v [] = (k, v) ∷ []
put k v ((j, w) ∷ r) = if j == k then (j, v) ∷ r else (j, w) ∷ put k v r

-- `tuple(r[c] for c in columns)`
abbrev pub project : List String → Row → Result (List Scalar)
project columns r = traverse (item r) columns

-- an operand of `-` or `+` beside an integer. (Python would also take another kind of number; the
-- columns that the program computes with are integers or NULL.)
abbrev pub as_int : Scalar → Result ℤ
as_int (int n) = ok n
as_int _ = err type_error

abbrev pub keys : Row → List String
keys [] = []
keys ((k, v) ∷ r) = k ∷ keys r

-- Equality of values. (Python would also equate a number with a float of the same value.)
abbrev pub int_beq : ℤ → ℤ → Bool
int_beq (pos a) b = elim b [ pos b' ↦ nat_beq a b' | _ ↦ false ]
int_beq (negsuc a) b = elim b [ negsuc b' ↦ nat_beq a b' | _ ↦ false ]

abbrev pub datetime_beq : Datetime → Datetime → Bool
datetime_beq (aware a) b = elim b [ aware b' ↦ nat_beq a b' | _ ↦ false ]
datetime_beq (naive a) b = elim b [ naive b' ↦ nat_beq a b' | _ ↦ false ]

unfoldable pub scalar_beq : Scalar → Scalar → Bool
scalar_beq null b = elim b [ null ↦ true | _ ↦ false ]
scalar_beq (int n) b = elim b [ int m ↦ int_beq n m | _ ↦ false ]
scalar_beq (text s) b = elim b [ text t ↦ s == t | _ ↦ false ]
scalar_beq (time s) b = elim b [ time t ↦ datetime_beq s t | _ ↦ false ]
scalar_beq (day n) b = elim b [ day m ↦ nat_beq n m | _ ↦ false ]
scalar_beq (millis n) b = elim b [ millis m ↦ int_beq n m | _ ↦ false ]
scalar_beq (opaque n) b = elim b [ opaque m ↦ nat_beq n m | _ ↦ false ]

pub int_beq-eq : (a b : ℤ) → int_beq a b ≡ true → a ≡ b
int_beq-eq a b h = ground arith

pub datetime_beq-eq : (a b : Datetime) → datetime_beq a b ≡ true → a ≡ b
datetime_beq-eq a b h = ground arith

pub scalar_beq-eq : (a b : Scalar) → scalar_beq a b ≡ true → a ≡ b
unfolding scalar_beq
scalar_beq-eq null b h = ground arith
scalar_beq-eq (int n) (int m) h = ap int (int_beq-eq n m h)
scalar_beq-eq (text s) (text t) h = ap text ((eq_iff s t).0 h)
scalar_beq-eq (time s) (time t) h = ap time (datetime_beq-eq s t h)
scalar_beq-eq (day n) (day m) h = ap day (nat_beq→eq n m h)
scalar_beq-eq (millis n) (millis m) h = ap millis (int_beq-eq n m h)
scalar_beq-eq (opaque n) (opaque m) h = ap opaque (nat_beq→eq n m h)
scalar_beq-eq _ _ h = cc

pub scalar_beq_refl : (a : Scalar) → scalar_beq a a ≡ true
unfolding scalar_beq
scalar_beq_refl (text s) = eq_refl s
scalar_beq_refl (int n) = ground arith
scalar_beq_refl _ = ground arith

pub scalar_beq-sym_false : (a b : Scalar) → scalar_beq a b ≡ false → scalar_beq b a ≡ false
scalar_beq-sym_false a b h = elim (Bool-cases (scalar_beq b a)) [
  | inl same ↦
      let clash = subst (λ x. scalar_beq a x ≡ false) (scalar_beq-eq b a same) h in
      let refl_a = scalar_beq_refl a in absurd (cc)
  | inr other ↦ other
]

pub item-keys :
    (k : String) (r : Row) → contains (keys r) k ≡ true → (v : Scalar) × (item r k ≡ ok v)
item-keys k [] h = absurd (cc)
item-keys k ((j, v) ∷ r) h = elim (Bool-cases (j == k)) [
  | inl same ↦ (v, rw (item, same) refl)
  | inr other ↦ let (u, e) = item-keys k r (ground (arith, h, other)) in (u, rw (item, other) e)
]

-- A tuple of keys of a row can be read, and has a value for each key.
pub project-keys :
    (ks : List String) (r : Row)
    → all (contains (keys r)) ks ≡ true
    → (vs : List Scalar) × (project ks r ≡ ok vs) × (length vs ≡ length ks)
project-keys [] r h = ([], refl, refl)
project-keys (k ∷ ks) r h =
    let (this, others) = and-eq-true _ _ h in
    let (v, e) = item-keys k r this in
    let (vs, e2, n) = project-keys ks r others in (v ∷ vs, rw (e, e2) refl, ap suc n)
