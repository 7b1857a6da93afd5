-- ===== src/Config.antt =====
-- src/config.py: `load_config` and its validation. The file system and the YAML parser come in as
-- what they return.
pub mod Shape
pub mod EnvPrefix
pub mod Soundness
pub mod Completeness
use sql_observability.Base.{
  ℕ, suc, ◌+◌, String, Bool, true, false, not, Option, none, some, List, [], ◌∷◌, keep, any, ltb,
  if◌then◌else◌,
}
use sql_observability.Py.Errors.{
  Result, Check, ok, err, ◌>>=◌, ◌>>◌, raise_if, ConfigProblem, config_error, type_error,
  file_not_found, not_a_mapping, missing_top_level, repository_not_a_mapping, missing_repository,
  instances_not_a_list, instance_not_a_mapping, missing_instance, duplicate_names,
  tasks_not_a_mapping, task_not_a_mapping, missing_task,
}
use sql_observability.Py.Yaml.{
  Yaml, list, dict, item, field, Fields, elements, entries, has, subscript, yaml_eq, hashable,
}

abbrev pub required_top_level_keys : List String
required_top_level_keys = "repository" ∷ "monitored_instances" ∷ "tasks" ∷ []

abbrev pub required_repository_keys : List String
required_repository_keys =
    "server" ∷ "database" ∷ "driver" ∷ "encrypt" ∷ "trust_server_certificate" ∷ "integrated_auth"
    ∷ []

abbrev pub required_instance_keys : List String
required_instance_keys =
    "name" ∷ "driver" ∷ "encrypt" ∷ "trust_server_certificate" ∷ "integrated_auth" ∷ "databases"
    ∷ []

abbrev pub required_task_keys : List String
required_task_keys = "enabled" ∷ "cadence_minutes" ∷ []

-- `[k for k in required if k not in mapping]`
unfoldable pub missing_keys : List String → Fields → List String
missing_keys required fs = keep (λ k. not (has fs k)) required

-- `if missing: raise ConfigError(...)`
unfoldable pub reject_missing : (List String → ConfigProblem) → List String → Check
reject_missing problem [] = ok tt
reject_missing problem (k ∷ ks) = err (config_error (problem (k ∷ ks)))

unfoldable pub validate_repository : Yaml → Check
unfolding missing_keys reject_missing
validate_repository (dict fs) =
    reject_missing missing_repository (missing_keys required_repository_keys fs)
validate_repository _ = err (config_error repository_not_a_mapping)

-- The body of the loop over `enumerate(instances)`: what it appends to `names`.
unfoldable pub instance_name : ℕ → Yaml → Result Yaml
unfolding missing_keys reject_missing
instance_name i (dict fs) =
    reject_missing (missing_instance i) (missing_keys required_instance_keys fs)
    >> subscript fs "name"
instance_name i _ = err (config_error (instance_not_a_mapping i))

unfoldable pub instance_names : ℕ → List Yaml → Result (List Yaml)
unfolding instance_name
instance_names i [] = ok []
instance_names i (v ∷ rest) = do
  name ← instance_name i v
  names ← instance_names (suc i) rest
  ok (name ∷ names)

-- `names.count(n)`
abbrev pub count : Yaml → List Yaml → ℕ
count n [] = 0
count n (m ∷ ms) = (if yaml_eq m n then 1 else 0) + count n ms

-- The set comprehension `duplicates`, in the order in which it is filled.
unfoldable pub repeated : List Yaml → List Yaml
repeated names = keep (λ n. ltb 1 (count n names)) names

unfoldable pub reject_repeated : List Yaml → Check
reject_repeated [] = ok tt
reject_repeated (n ∷ ns) =
    raise_if (any (λ m. not (hashable m)) (n ∷ ns)) type_error >> err (config_error duplicate_names)

unfoldable pub validate_monitored_instances : Yaml → Check
unfolding instance_names repeated reject_repeated
validate_monitored_instances (list (item v vs)) = do
  names ← instance_names 0 (v ∷ elements vs)
  reject_repeated (repeated names)
validate_monitored_instances _ = err (config_error instances_not_a_list)

-- The body of the loop over `tasks.items()`.
unfoldable pub validate_spec : String → Yaml → Check
unfolding missing_keys reject_missing
validate_spec name (dict spec) =
    reject_missing (missing_task name) (missing_keys required_task_keys spec)
validate_spec name _ = err (config_error (task_not_a_mapping name))

unfoldable pub validate_specs : List (String × Yaml) → Check
unfolding validate_spec
validate_specs [] = ok tt
validate_specs ((name, spec) ∷ rest) = validate_spec name spec >> validate_specs rest

unfoldable pub validate_tasks : Yaml → Check
unfolding validate_specs
validate_tasks (dict (field k v fs)) = validate_specs (entries (field k v fs))
validate_tasks _ = err (config_error tasks_not_a_mapping)

-- `check(config[key])`
unfoldable pub validate_key : Fields → String → (Yaml → Check) → Check
validate_key config key check = do v ← subscript config key; check v

unfoldable pub validate_config : Fields → Check
unfolding missing_keys reject_missing validate_key
validate_config config = do
  reject_missing missing_top_level (missing_keys required_top_level_keys config)
  validate_key config "repository" validate_repository
  validate_key config "monitored_instances" validate_monitored_instances
  validate_key config "tasks" validate_tasks

-- `none` is a path that is no file; otherwise what reading and parsing it gave.
unfoldable pub load_config : Option (Result Yaml) → Result Fields
unfolding validate_config
load_config none = err (config_error file_not_found)
load_config (some parsed) = do
  data' ← parsed
  config ← elim data' [ dict fs ↦ ok fs | _ ↦ err (config_error not_a_mapping) ]
  validate_config config
  ok config
