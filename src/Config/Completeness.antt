-- ===== src/Config/Completeness.antt =====
-- src/config.py accepts every configuration of the documented shape whose instance names are texts.
use sql_observability.Base.{
  ◌≡◌, refl, sym, ap, ◌∙◌, subst, ℕ, suc, ◌≤◌, ◌↔◌, String, Bool, true, false, List, [], ◌∷◌, All,
  In, map, keep, arith, inl, inr, Bool-cases, ◌==◌, eq_iff, ltb, some,
}
use sql_observability.Py.Errors.{
  ok, ConfigProblem, missing_instance, missing_task, missing_repository, missing_top_level, Check,
  ◌>>◌,
}
use sql_observability.Py.Yaml.{
  Yaml, Items, Fields, nil, end, text, dict, list, item, field, elements, entries, find, has,
  yaml_eq, subscript, get_or, null,
}
use sql_observability.Config.{
  missing_keys, reject_missing, validate_repository, instance_name, instance_names, count, repeated,
  reject_repeated, validate_monitored_instances, validate_spec, validate_specs, validate_tasks,
  validate_key, validate_config, required_top_level_keys, required_repository_keys,
  required_instance_keys, required_task_keys,
}
use sql_observability.Config.Shape.{
  HasAll, IsMappingWith, name_of, names_in, IsText, Unrepeated, IsConfig,
}
use sql_observability.Config.Soundness.{validate_config-IsConfig}

missing_keys-nil : (keys : List String) (fs : Fields) → HasAll keys fs → missing_keys keys fs ≡ []
unfolding missing_keys
missing_keys-nil [] fs h = refl
missing_keys-nil (k ∷ ks) fs h = rw (h.0) (missing_keys-nil ks fs h.1)

reject_missing-returns :
    (problem : List String → ConfigProblem) (keys : List String) (fs : Fields)
    → HasAll keys fs
    → reject_missing problem (missing_keys keys fs) ≡ ok tt
unfolding reject_missing
reject_missing-returns problem keys fs h = rw (missing_keys-nil keys fs h) refl

subscript-returns :
    (fs : Fields) (k : String) → has fs k ≡ true → subscript fs k ≡ ok (get_or fs k null)
subscript-returns fs k h = ground arith

instance_name-returns :
    (i : ℕ) (v : Yaml) → IsMappingWith required_instance_keys v → instance_name i v ≡ ok (name_of v)
unfolding instance_name
instance_name-returns i (dict fs) h =
    ap (λ c. c >> subscript fs "name")
      (reject_missing-returns (missing_instance i) required_instance_keys fs h)
    ∙ subscript-returns fs "name" h.0
instance_name-returns i (v) h = absurd h

instance_names-returns :
    (i : ℕ) (vs : List Yaml)
    → All (IsMappingWith required_instance_keys) vs
    → instance_names i vs ≡ ok (map name_of vs)
unfolding instance_names
instance_names-returns i [] h = refl
instance_names-returns i (v ∷ vs) h =
    rw (instance_name-returns i v h.0, instance_names-returns (suc i) vs h.1) refl

count-zero :
    (s : String) (ns : List Yaml) → All IsText ns → ¬ In (text s) ns → count (text s) ns ≡ 0
unfolding yaml_eq
count-zero s [] texts absent = refl
count-zero s (n ∷ ns) ((t, is), texts) absent = elim (Bool-cases (t == s)) [
  | inl same ↦ absurd (absent (inl (ap text (sym ((eq_iff t s).0 same)) ∙ sym is)))
  | inr other ↦ rw (is, other) (omega (arith, count-zero s ns texts (λ m. absent (inr m))))
]

count-once : (s : String) (ns : List Yaml) → All IsText ns → Unrepeated ns → count (text s) ns ≤ 1
unfolding yaml_eq
count-once s [] texts once = omega arith
count-once s (n ∷ ns) ((t, is), texts) (first, once) = elim (Bool-cases (t == s)) [
  | inl same ↦
      let absent = first s (is ∙ ap text ((eq_iff t s).0 same)) in
      rw (is, same, count-zero s ns texts absent) (omega arith)
  | inr other ↦ rw (is, other) (omega (arith, count-once s ns texts once))
]

keep-none {ℓ} :
    {A : Type ℓ} (p : A → Bool) (xs : List A) → All (λ x. p x ≡ false) xs → keep p xs ≡ []
keep-none p [] h = refl
keep-none p (x ∷ xs) h = rw (h.0) (keep-none p xs h.1)

none_repeated :
    (whole sub : List Yaml)
    → All IsText sub
    → ((s : String) → count (text s) whole ≤ 1)
    → All (λ n. ltb 1 (count n whole) ≡ false) sub
none_repeated whole [] texts once = tt
none_repeated whole (n ∷ ns) ((s, is), texts) once =
    let few = once s in (rw is (ground arith), none_repeated whole ns texts once)

reject_repeated-returns :
    (names : List Yaml)
    → All IsText names
    → Unrepeated names
    → reject_repeated (repeated names) ≡ ok tt
unfolding reject_repeated repeated
reject_repeated-returns names texts once =
    rw
      (keep-none (λ n. ltb 1 (count n names)) names
        (none_repeated names names texts (λ s. count-once s names texts once)))
      refl

validate_monitored_instances-returns :
    (vs : Items)
    → (elements vs ≡ [] → ⊥)
    → All (IsMappingWith required_instance_keys) (elements vs)
    → All IsText (map name_of (elements vs))
    → Unrepeated (map name_of (elements vs))
    → validate_monitored_instances (list vs) ≡ ok tt
unfolding validate_monitored_instances
validate_monitored_instances-returns nil filled shapes texts once = absurd (filled refl)
validate_monitored_instances-returns (item v vs) filled shapes texts once =
    rw (instance_names-returns 0 (v ∷ elements vs) shapes)
      (reject_repeated-returns (map name_of (v ∷ elements vs)) texts once)

validate_spec-returns :
    (name : String) (spec : Yaml)
    → IsMappingWith required_task_keys spec
    → validate_spec name spec ≡ ok tt
unfolding validate_spec
validate_spec-returns name (dict spec) h =
    reject_missing-returns (missing_task name) required_task_keys spec h
validate_spec-returns name _ h = absurd h

validate_specs-returns :
    (specs : List (String × Yaml))
    → All (λ (s : String × Yaml). IsMappingWith required_task_keys s.1) specs
    → validate_specs specs ≡ ok tt
unfolding validate_specs
validate_specs-returns [] h = refl
validate_specs-returns ((name, spec) ∷ rest) h =
    rw (validate_spec-returns name spec h.0) (validate_specs-returns rest h.1)

validate_tasks-returns :
    (fs : Fields)
    → (entries fs ≡ [] → ⊥)
    → All (λ (s : String × Yaml). IsMappingWith required_task_keys s.1) (entries fs)
    → validate_tasks (dict fs) ≡ ok tt
unfolding validate_tasks
validate_tasks-returns end filled h = absurd (filled refl)
validate_tasks-returns (field k v fs) filled h = validate_specs-returns ((k, v) ∷ entries fs) h

validate_key-returns :
    (config : Fields) (key : String) (check : Yaml → Check) (v : Yaml)
    → find key config ≡ some v
    → check v ≡ ok tt
    → validate_key config key check ≡ ok tt
unfolding validate_key
validate_key-returns config key check v at passed = rw (subscript, at) passed

>>-returns : {first second : Check} → first ≡ ok tt → second ≡ ok tt → (first >> second) ≡ ok tt
>>-returns h k = rw h k

IsConfig-validate_config :
    (config : Fields)
    → All IsText (names_in config)
    → IsConfig config
    → validate_config config ≡ ok tt
unfolding validate_config validate_repository
IsConfig-validate_config config texts c =
    let names : names_in config ≡ map name_of (elements c.instances) =
      rw (names_in, get_or, c.instances_at) refl in
    let repository =
      validate_key-returns config "repository" validate_repository (dict c.repository)
        c.repository_at
        (reject_missing-returns missing_repository required_repository_keys c.repository
          c.repository_keys) in
    let instances =
      validate_key-returns config "monitored_instances" validate_monitored_instances
        (list c.instances) c.instances_at
        (validate_monitored_instances-returns c.instances c.some_instance c.instance_keys
          (subst (All IsText) names texts) c.names_unrepeated) in
    let tasks =
      validate_key-returns config "tasks" validate_tasks (dict c.tasks) c.tasks_at
        (validate_tasks-returns c.tasks c.some_task c.task_keys) in
    let top = reject_missing-returns missing_top_level required_top_level_keys config (
      rw (has, c.repository_at) refl,
      (rw (has, c.instances_at) refl, (rw (has, c.tasks_at) refl, tt)),
    ) in
    >>-returns top (>>-returns repository (>>-returns instances tasks))

-- Where every instance's name is a text, `validate_config` accepts a configuration exactly if it has
-- the documented shape: the required keys at every level, at least one instance and one task, and
-- no two instances with the same name.
pub validate_config_iff :
    (config : Fields)
    → All IsText (names_in config)
    → (validate_config config ≡ ok tt) ↔ IsConfig config
validate_config_iff config texts =
    (validate_config-IsConfig config, IsConfig-validate_config config texts)
