-- ===== src/Tasks/Grouping.antt =====
-- The aggregation of src/collectors/sessions.py and src/collectors/workload.py: a `defaultdict` by
-- login, program, host and database, filled in the order of the rows.
use sql_observability.Base.{
  ◌≡◌, refl, sym, ◌∙◌, subst, ℕ, suc, ◌+◌, Bool, true, false, ◌&&◌, and-eq-true, Option, none, some,
  List, [], ◌∷◌, any, length, if◌then◌else◌, Bool-cases, inl, inr, arith,
}
use sql_observability.Py.Row.{Scalar, scalar_beq, scalar_beq-eq, scalar_beq_refl}

-- The tuple that is the key of a group.
pub record Attribution : Type 0 where
  pub login_name : Scalar
  pub program_name : Scalar
  pub host_name : Scalar
  pub database_name : Scalar

abbrev pub same : Attribution → Attribution → Bool
same a b =
    scalar_beq a.login_name b.login_name
    && (scalar_beq a.program_name b.program_name
        && (scalar_beq a.host_name b.host_name && scalar_beq a.database_name b.database_name))

pub same-eq : (a b : Attribution) → same a b ≡ true → a ≡ b
same-eq a b h =
    let (l, h1) = and-eq-true _ _ h in
    let (p, h2) = and-eq-true _ _ h1 in
    let (s, d) = and-eq-true _ _ h2 in
    let el = scalar_beq-eq a.login_name b.login_name l in
    let ep = scalar_beq-eq a.program_name b.program_name p in
    let es = scalar_beq-eq a.host_name b.host_name s in
    let ed = scalar_beq-eq a.database_name b.database_name d in cc

pub same_refl : (a : Attribution) → same a a ≡ true
same_refl a =
    rw
      (
        scalar_beq_refl a.login_name,
        scalar_beq_refl a.program_name,
        scalar_beq_refl a.host_name,
        scalar_beq_refl a.database_name,
      )
      refl

same-sym_false : (a b : Attribution) → same a b ≡ false → same b a ≡ false
same-sym_false a b h = elim (Bool-cases (same b a)) [
  | inl equal ↦
      let clash = subst (λ x. same a x ≡ false) (same-eq b a equal) h in
      let refl_a = same_refl a in absurd (cc)
  | inr other ↦ other
]

module _ {M V : Type 0} (add : V → M → V) (start : V) where
  -- `g = groups[key]`, and the updates of `g`
  unfoldable pub bump : Attribution → M → List (Attribution × V) → List (Attribution × V)
  bump k m [] = (k, add start m) ∷ []
  bump k m ((j, v) ∷ groups) =
      let rest = bump k m groups in if same j k then (j, add v m) ∷ groups else (j, v) ∷ rest

  -- The loop over the rows.
  unfoldable pub group : List (Attribution × M) → List (Attribution × V) → List (Attribution × V)
  unfolding bump
  group [] groups = groups
  group ((k, m) ∷ events) groups = group events (bump k m groups)

  -- Reference: the value of a key is the fold of its own events.
  abbrev pub total : Attribution → V → List (Attribution × M) → V
  total k v [] = v
  total k v ((j, m) ∷ events) = total k (if same j k then add v m else v) events

abbrev pub value : {V : Type 0} → Attribution → List (Attribution × V) → Option V
value k [] = none
value k ((j, v) ∷ groups) = if same j k then some v else value k groups

abbrev pub has_key : {V : Type 0} → Attribution → List (Attribution × V) → Bool
has_key k groups = any (λ e. same e.0 k) groups

abbrev pub IsUnrepeated : {V : Type 0} → List (Attribution × V) → Type 0
IsUnrepeated [] = Unit
IsUnrepeated ((k, v) ∷ groups) = (has_key k groups ≡ false) × IsUnrepeated groups

module _ {M V : Type 0} (add : V → M → V) (start : V) where
  value-bump_same :
      (k : Attribution) (m : M) (groups : List (Attribution × V))
      → value k (bump add start k m groups)
        ≡ some (add (elim (value k groups) [ none ↦ start | some v ↦ v ]) m)
  unfolding bump
  value-bump_same k m [] = rw (same_refl k) refl
  value-bump_same k m ((j, v) ∷ groups) = ground (arith, value-bump_same k m groups)

  value-bump_other :
      (j k : Attribution) (m : M) (groups : List (Attribution × V))
      → same j k ≡ false
      → value k (bump add start j m groups) ≡ value k groups
  unfolding bump
  value-bump_other j k m [] other = rw other refl
  value-bump_other j k m ((i, v) ∷ groups) other = elim (Bool-cases (same i j)) [
    | inl here ↦
        let miss = subst (λ x. same x k ≡ false) (sym (same-eq i j here)) other in
        rw (here, miss) refl
    | inr there ↦ ground (arith, value-bump_other j k m groups other)
  ]

  value-bump-some :
      (j k : Attribution) (v : V) (m : M) (groups : List (Attribution × V))
      → same j k ≡ true
      → value k groups ≡ some v
      → value k (bump add start j m groups) ≡ some (add v m)
  value-bump-some j k v m groups equal h =
      subst (λ x. value k (bump add start x m groups) ≡ some (add v m)) (sym (same-eq j k equal))
        (value-bump_same k m groups ∙ rw h refl)

  value-bump-none :
      (j k : Attribution) (m : M) (groups : List (Attribution × V))
      → same j k ≡ true
      → value k groups ≡ none
      → value k (bump add start j m groups) ≡ some (add start m)
  value-bump-none j k m groups equal h =
      subst (λ x. value k (bump add start x m groups) ≡ some (add start m))
        (sym (same-eq j k equal)) (value-bump_same k m groups ∙ rw h refl)

  pub group-value-some :
      (k : Attribution) (v : V) (events : List (Attribution × M)) (groups : List (Attribution × V))
      → value k groups ≡ some v
      → value k (group add start events groups) ≡ some (total add start k v events)
  unfolding group
  group-value-some k v [] groups h = h
  group-value-some k v ((j, m) ∷ events) groups h = elim (Bool-cases (same j k)) [
    | inl equal ↦ rw equal (
        group-value-some k (add v m) events (bump add start j m groups)
          (value-bump-some j k v m groups equal h))
    | inr other ↦ rw other (
        group-value-some k v events (bump add start j m groups)
          (value-bump_other j k m groups other ∙ h))
  ]

  pub group-value-none :
      (k : Attribution) (events : List (Attribution × M)) (groups : List (Attribution × V))
      → value k groups ≡ none
      → value k (group add start events groups)
        ≡ (if has_key k events then some (total add start k start events) else none)
  unfolding group
  group-value-none k [] groups h = h
  group-value-none k ((j, m) ∷ events) groups h = elim (Bool-cases (same j k)) [
    | inl equal ↦ rw equal (
        group-value-some k (add start m) events (bump add start j m groups)
          (value-bump-none j k m groups equal h))
    | inr other ↦ rw other (
        group-value-none k events (bump add start j m groups)
          (value-bump_other j k m groups other ∙ h))
  ]

  has_key-bump :
      (q k : Attribution) (m : M) (groups : List (Attribution × V))
      → has_key q groups ≡ false
      → same k q ≡ false
      → has_key q (bump add start k m groups) ≡ false
  unfolding bump
  has_key-bump q k m [] h other = rw other refl
  has_key-bump q k m ((j, v) ∷ groups) h other = ground (arith, has_key-bump q k m groups)

  bump-IsUnrepeated :
      (k : Attribution) (m : M) (groups : List (Attribution × V))
      → IsUnrepeated groups
      → IsUnrepeated (bump add start k m groups)
  unfolding bump
  bump-IsUnrepeated k m [] h = (refl, tt)
  bump-IsUnrepeated k m ((j, v) ∷ groups) h = elim (Bool-cases (same j k)) [
    | inl here ↦ rw here h
    | inr there ↦
        rw there (
          has_key-bump j k m groups h.0 (same-sym_false j k there),
          bump-IsUnrepeated k m groups h.1,
        )
  ]

  -- The keys of the groups differ.
  pub group-IsUnrepeated :
      (events : List (Attribution × M)) (groups : List (Attribution × V))
      → IsUnrepeated groups
      → IsUnrepeated (group add start events groups)
  unfolding group
  group-IsUnrepeated [] groups h = h
  group-IsUnrepeated ((k, m) ∷ events) groups h =
      group-IsUnrepeated events (bump add start k m groups) (bump-IsUnrepeated k m groups h)

  -- The sum of a measure of the groups.
  abbrev pub sum : (V → ℕ) → List (Attribution × V) → ℕ
  sum size [] = 0
  sum size ((k, v) ∷ groups) = size v + sum size groups

  sum-bump :
      (size : V → ℕ) (k : Attribution) (m : M) (groups : List (Attribution × V))
      → ((v : V) (n : M) → size (add v n) ≡ suc (size v))
      → size start ≡ 0
      → sum size (bump add start k m groups) ≡ suc (sum size groups)
  unfolding bump
  sum-bump size k m [] step zero' = ground (arith, step start m)
  sum-bump size k m ((j, v) ∷ groups) step zero' =
      ground (arith, step v m, sum-bump size k m groups step zero')

  -- Every event is counted in one group.
  pub sum-group :
      (size : V → ℕ) (events : List (Attribution × M)) (groups : List (Attribution × V))
      → ((v : V) (n : M) → size (add v n) ≡ suc (size v))
      → size start ≡ 0
      → sum size (group add start events groups) ≡ length events + sum size groups
  unfolding group
  sum-group size [] groups step zero' = omega arith
  sum-group size ((k, m) ∷ events) groups step zero' = omega (
    arith,
    sum-group size events (bump add start k m groups) step zero',
    sum-bump size k m groups step zero',
  )
