-- ===== src/Base/Lists.antt =====
-- Lists measured by native numbers, predicates by recursion, and Boolean searches that run.
use Prim.Native.Nat.{ℕ, suc, ◌+◌, ◌≤◌}
use Prim.Native.String.{String}
use mathlib.Core.Path.{◌≡◌, refl, ap, subst}
use mathlib.Core.Logic.{◌⊎◌, inl, inr}
use mathlib.Core.Bool.{Bool, true, false, ◌&&◌, ◌||◌}
use mathlib.Core.List.{List, [], ◌∷◌, ◌++◌, map}
use native.Mathlib.Omega.{arith}
use text.Mathlib.Text.{◌==◌}
use text.Mathlib.TextEquality.{eq_iff}
use sql_observability.Base.Tests.{if◌then◌else◌, and-eq-true, Bool-cases}

module _ {ℓ} {A : Type ℓ} where
  abbrev pub length : List A → ℕ
  length [] = 0
  length (x ∷ xs) = suc (length xs)

  -- `[x for x in xs if p(x)]`
  abbrev pub keep : (A → Bool) → List A → List A
  keep p [] = []
  keep p (x ∷ xs) = let rest = keep p xs in if p x then x ∷ rest else rest

  abbrev pub all : (A → Bool) → List A → Bool
  all p [] = true
  all p (x ∷ xs) = p x && all p xs

  abbrev pub any : (A → Bool) → List A → Bool
  any p [] = false
  any p (x ∷ xs) = p x || any p xs

  abbrev pub All {κ} : (A → Type κ) → List A → Type κ
  All P [] = Unit
  All P (x ∷ xs) = P x × All P xs

  pub length-append : (xs ys : List A) → length (xs ++ ys) ≡ length xs + length ys
  length-append [] ys = omega arith
  length-append (x ∷ xs) ys = omega (arith, length-append xs ys)

  pub length-keep-le : (p : A → Bool) (xs : List A) → length (keep p xs) ≤ length xs
  length-keep-le p [] = omega arith
  length-keep-le p (x ∷ xs) = ground (arith, length-keep-le p xs)

  pub All-append {κ} : (P : A → Type κ) (xs ys : List A) → All P xs → All P ys → All P (xs ++ ys)
  All-append P [] ys h k = k
  All-append P (x ∷ xs) ys h k = (h.0, All-append P xs ys h.1 k)

  pub All-weaken {κ μ} :
      (P : A → Type κ) (Q : A → Type μ) (xs : List A) → ((x : A) → P x → Q x) → All P xs → All Q xs
  All-weaken P Q [] f h = tt
  All-weaken P Q (x ∷ xs) f h = (f x h.0, All-weaken P Q xs f h.1)

pub length-map {ℓ κ} :
    {A : Type ℓ} {B : Type κ} (f : A → B) (xs : List A) → length (map f xs) ≡ length xs
length-map f [] = refl
length-map f (x ∷ xs) = ap suc (length-map f xs)

-- Membership by recursion.
abbrev pub In : {A : Type 0} → A → List A → Type 0
In a [] = ⊥
In a (x ∷ xs) = (a ≡ x) ⊎ In a xs

-- `s in names`
abbrev pub contains : List String → String → Bool
contains [] s = false
contains (x ∷ xs) s = x == s || contains xs s

pub all-contains :
    (p : String → Bool) (cs : List String) (c : String)
    → all p cs ≡ true
    → contains cs c ≡ true
    → p c ≡ true
all-contains p [] c h k = absurd (cc)
all-contains p (d ∷ cs) c h k =
    let (this, others) = and-eq-true _ _ h in
    elim (Bool-cases (d == c)) [
      | inl same ↦ subst (λ x. p x ≡ true) ((eq_iff d c).0 same) this
      | inr other ↦ all-contains p cs c others (rw other at k)
    ]

-- If every element of `ds` is in `cs`, what holds of `cs` holds of `ds`.
pub all-all-contains :
    (p : String → Bool) (cs ds : List String)
    → all p cs ≡ true
    → all (contains cs) ds ≡ true
    → all p ds ≡ true
all-all-contains p cs [] h k = refl
all-all-contains p cs (d ∷ ds) h k =
    let (this, others) = and-eq-true (contains cs d) _ k in
    rw (all-contains p cs d h this, all-all-contains p cs ds h others) refl

pub All-append_left {ℓ κ} :
    {A : Type ℓ} (P : A → Type κ) (xs ys : List A) → All P (xs ++ ys) → All P xs × All P ys
All-append_left P [] ys h = (tt, h)
All-append_left P (x ∷ xs) ys h =
    let (left, right) = All-append_left P xs ys h.1 in ((h.0, left), right)
