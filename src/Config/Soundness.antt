-- ===== src/Config/Soundness.antt =====
-- A configuration that src/config.py accepts has the shape that the rest of the program relies on.
use native.Mathlib.Nat.{le_refl, le_trans}
use sql_observability.Base.{
  ◌≡◌, refl, ◌≢◌, ◌≤◌, suc, String, false, some, List, [], ◌∷◌, All, In, ℕ, arith, keep, Bool, ltb,
  eq_refl, map, inl, inr, ltb_false→le, ap, ◌∙◌, subst,
}
use sql_observability.Py.Errors.{
  ok, missing_instance, missing_task, missing_repository, missing_top_level, >>-eq-ok, Result-cases,
  ◌>>◌, Check, ConfigProblem, >>=-eq-ok,
}
use sql_observability.Py.Yaml.{
  Yaml, Items, Fields, text, dict, list, item, field, elements, entries, find, yaml_eq, subscript,
}
use sql_observability.Config.{
  missing_keys, reject_missing, validate_repository, instance_name, instance_names, count, repeated,
  reject_repeated, validate_monitored_instances, validate_spec, validate_specs, validate_tasks,
  validate_key, validate_config, required_top_level_keys, required_repository_keys,
  required_instance_keys, required_task_keys,
}
use sql_observability.Config.Shape.{HasAll, IsMappingWith, name_of, Unrepeated, IsConfig}

keep-nil {ℓ} :
    {A : Type ℓ} (p : A → Bool) (xs : List A) → keep p xs ≡ [] → All (λ x. p x ≡ false) xs
keep-nil p [] h = tt
keep-nil p (x ∷ xs) h = ground (arith, keep-nil p xs)

pub HasAll-of_missing :
    (keys : List String) (fs : Fields) → missing_keys keys fs ≡ [] → HasAll keys fs
unfolding missing_keys
HasAll-of_missing [] fs h = tt
HasAll-of_missing (k ∷ ks) fs h = ground (arith, HasAll-of_missing ks fs)

-- Reading the keys off a mapping that passed, for each place where it is checked.
reject_missing-HasAll :
    (problem : List String → ConfigProblem) (keys : List String) (fs : Fields)
    → reject_missing problem (missing_keys keys fs) ≡ ok tt
    → HasAll keys fs
unfolding reject_missing
reject_missing-HasAll problem keys fs h = HasAll-of_missing keys fs (ground arith)

instance_name-ok :
    (i : ℕ) (v name : Yaml)
    → instance_name i v ≡ ok name
    → IsMappingWith required_instance_keys v × (name ≡ name_of v)
unfolding instance_name
instance_name-ok i (dict fs) name h =
    ground (arith, reject_missing-HasAll (missing_instance i) required_instance_keys fs)
instance_name-ok i _ name h = cc

instance_names-ok :
    (i : ℕ) (vs names : List Yaml)
    → instance_names i vs ≡ ok names
    → All (IsMappingWith required_instance_keys) vs × (names ≡ map name_of vs)
unfolding instance_names
instance_names-ok i [] names h = (tt, cc)
instance_names-ok i (v ∷ rest) names h = elim (Result-cases (instance_name i v)) [
  | inr (e, failed) ↦ let h' = rw failed at h in absurd (cc)
  | inl (name, named) ↦ elim (Result-cases (instance_names (suc i) rest)) [
    | inr (e, failed) ↦ let h' = rw (named, failed) at h in absurd (cc)
    | inl (after, passed) ↦
        let (shape, same) = instance_name-ok i v name named in
        let (shapes, others) = instance_names-ok (suc i) rest after passed in
        let h' = rw (named, passed) at h in ((shape, shapes), cc (same, others))
  ]
]

count-In : (s : String) (ns : List Yaml) → In (text s) ns → 1 ≤ count (text s) ns
unfolding yaml_eq
count-In s [] m = absurd m
count-In s (n ∷ ns) (inl e) = rw (← e, eq_refl s) (omega arith)
count-In s (n ∷ ns) (inr m) = omega (arith, count-In s ns m)

count-head : (s : String) (ns : List Yaml) → In (text s) ns → 2 ≤ count (text s) (text s ∷ ns)
unfolding yaml_eq
count-head s ns m = rw eq_refl (omega (arith, count-In s ns m))

count-tail-le : (m n : Yaml) (ns : List Yaml) → count m ns ≤ count m (n ∷ ns)
count-tail-le m n ns = omega arith

Unrepeated-of_count :
    (whole sub : List Yaml)
    → ((n : Yaml) → count n sub ≤ count n whole)
    → All (λ n. ltb 1 (count n whole) ≡ false) sub
    → Unrepeated sub
Unrepeated-of_count whole [] le h = tt
Unrepeated-of_count whole (n ∷ ns) le h = (
  λ s e m.
      let once = ltb_false→le 1 _ (rw e at h.0) in
      let twice = count-head s ns m in let most = rw e at le (text s) in omega arith,
  Unrepeated-of_count whole ns (λ m. le_trans (count-tail-le m n ns) (le m)) h.1,
)

reject_repeated-Unrepeated :
    (names : List Yaml) → reject_repeated (repeated names) ≡ ok tt → Unrepeated names
unfolding reject_repeated repeated
reject_repeated-Unrepeated names h =
    Unrepeated-of_count names names (λ n. le_refl _) (keep-nil _ names (ground arith))

validate_spec-ok :
    (name : String) (spec : Yaml)
    → validate_spec name spec ≡ ok tt
    → IsMappingWith required_task_keys spec
unfolding validate_spec
validate_spec-ok name (dict spec) h =
    reject_missing-HasAll (missing_task name) required_task_keys spec h
validate_spec-ok name _ h = cc

validate_specs-ok :
    (specs : List (String × Yaml))
    → validate_specs specs ≡ ok tt
    → All (λ (s : String × Yaml). IsMappingWith required_task_keys s.1) specs
unfolding validate_specs
validate_specs-ok [] h = tt
validate_specs-ok ((name, spec) ∷ rest) h =
    let (this, others) = >>-eq-ok (validate_spec name spec) (validate_specs rest) h in
    (validate_spec-ok name spec this, validate_specs-ok rest others)

-- What each part of an accepted configuration looks like.
validate_repository-ok :
    (v : Yaml)
    → validate_repository v ≡ ok tt
    → (fs : Fields) × (v ≡ dict fs) × HasAll required_repository_keys fs
unfolding validate_repository
validate_repository-ok (dict fs) h =
    (fs, refl, reject_missing-HasAll missing_repository required_repository_keys fs h)
validate_repository-ok _ h = absurd (cc)

validate_monitored_instances-ok :
    (v : Yaml)
    → validate_monitored_instances v ≡ ok tt
    → (vs : Items) × (v ≡ list vs)
      × (elements vs ≢ [])
      × All (IsMappingWith required_instance_keys) (elements vs)
      × Unrepeated (map name_of (elements vs))
unfolding validate_monitored_instances
validate_monitored_instances-ok (list (item v vs)) h =
    let (names, named, distinct) = >>=-eq-ok (instance_names 0 (v ∷ elements vs)) _ h in
    let (shapes, same) = instance_names-ok 0 (v ∷ elements vs) names named in
    (
      item v vs,
      refl,
      λ e. cc,
      shapes,
      subst Unrepeated same (reject_repeated-Unrepeated names distinct),
    )
validate_monitored_instances-ok _ h = absurd (cc)

validate_tasks-ok :
    (v : Yaml)
    → validate_tasks v ≡ ok tt
    → (fs : Fields) × (v ≡ dict fs)
      × (entries fs ≢ [])
      × All (λ (s : String × Yaml). IsMappingWith required_task_keys s.1) (entries fs)
unfolding validate_tasks
validate_tasks-ok (dict (field k v fs)) h =
    (field k v fs, refl, λ e. cc, validate_specs-ok ((k, v) ∷ entries fs) h)
validate_tasks-ok _ h = absurd (cc)

validate_key-ok :
    (config : Fields) (key : String) (check : Yaml → Check)
    → validate_key config key check ≡ ok tt
    → (v : Yaml) × (find key config ≡ some v) × (check v ≡ ok tt)
unfolding validate_key
validate_key-ok config key check h =
    let (v, at, passed) = >>=-eq-ok (subscript config key) check h in (v, ground arith, passed)

-- The four checks of `validate_config`, each of them passed.
validate_config-ok :
    (config : Fields)
    → validate_config config ≡ ok tt
    → (validate_key config "repository" validate_repository ≡ ok tt)
      × (validate_key config "monitored_instances" validate_monitored_instances ≡ ok tt)
      × (validate_key config "tasks" validate_tasks ≡ ok tt)
unfolding validate_config
validate_config-ok config h =
    let checks = λ (v : Yaml → Check) (w : Yaml → Check).
      validate_key config "monitored_instances" v >> validate_key config "tasks" w in
    let top = reject_missing missing_top_level (missing_keys required_top_level_keys config) in
    let rest = checks validate_monitored_instances validate_tasks in
    let repository = validate_key config "repository" validate_repository in
    let (_, h1) = >>-eq-ok top (repository >> rest) h in
    let (r, h2) = >>-eq-ok repository rest h1 in
    let (i, t) =
      >>-eq-ok (validate_key config "monitored_instances" validate_monitored_instances) _ h2 in
    (r, i, t)

-- An accepted configuration has the documented shape: the required keys at every level, at least
-- one instance and one task, and no text as the name of two instances.
pub validate_config-IsConfig : (config : Fields) → validate_config config ≡ ok tt → IsConfig config
validate_config-IsConfig config h =
    let (check_r, check_i, check_t) = validate_config-ok config h in
    let (r, at_r, valid_r) = validate_key-ok config "repository" validate_repository check_r in
    let (i, at_i, valid_i) =
      validate_key-ok config "monitored_instances" validate_monitored_instances check_i in
    let (t, at_t, valid_t) = validate_key-ok config "tasks" validate_tasks check_t in
    let (rf, is_r, keys_r) = validate_repository-ok r valid_r in
    let (vs, is_vs, some_vs, keys_vs, names_vs) = validate_monitored_instances-ok i valid_i in
    let (tf, is_t, some_t, keys_t) = validate_tasks-ok t valid_t in
    record {
      repository = rf;
      repository_at = at_r ∙ ap some is_r;
      repository_keys = keys_r;
      instances = vs;
      instances_at = at_i ∙ ap some is_vs;
      some_instance = some_vs;
      instance_keys = keys_vs;
      names_unrepeated = names_vs;
      tasks = tf;
      tasks_at = at_t ∙ ap some is_t;
      some_task = some_t;
      task_keys = keys_t;
    }
