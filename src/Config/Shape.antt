-- ===== src/Config/Shape.antt =====
-- The documented shape of a configuration, stated apart from the code that checks it.
use sql_observability.Base.{◌≡◌, ◌≢◌, String, true, some, List, [], ◌∷◌, All, In, map}
use sql_observability.Py.Yaml.{
  Yaml, Items, Fields, list, dict, text, elements, entries, find, has, null, get_or,
}
use sql_observability.Config.{required_repository_keys, required_instance_keys, required_task_keys}

abbrev pub HasAll : List String → Fields → Type 0
HasAll keys fs = All (λ k. has fs k ≡ true) keys

-- A mapping with these keys, perhaps among others.
abbrev pub IsMappingWith : List String → Yaml → Type 0
IsMappingWith keys (dict fs) = HasAll keys fs
IsMappingWith keys _ = ⊥

-- `instance["name"]`, read with a default where it is no mapping
abbrev pub name_of : Yaml → Yaml
name_of (dict fs) = get_or fs "name" null
name_of _ = null

-- The names of the monitored instances, with none where they are no list.
abbrev pub names_in : Fields → List Yaml
names_in config = elim (get_or config "monitored_instances" null) [
  | list vs ↦ map name_of (elements vs)
  | _ ↦ []
]

abbrev pub IsText : Yaml → Type 0
IsText v = (s : String) × (v ≡ text s)

-- No two entries of the list are the same text.
abbrev pub Unrepeated : List Yaml → Type 0
Unrepeated [] = Unit
Unrepeated (n ∷ ns) = ((s : String) → n ≡ text s → ¬ In (text s) ns) × Unrepeated ns

pub record IsConfig (config : Fields) : Type 0 where
  pub repository : Fields
  pub repository_at : find "repository" config ≡ some (dict repository)
  pub repository_keys : HasAll required_repository_keys repository
  pub instances : Items
  pub instances_at : find "monitored_instances" config ≡ some (list instances)
  pub some_instance : elements instances ≢ []
  pub instance_keys : All (IsMappingWith required_instance_keys) (elements instances)
  pub names_unrepeated : Unrepeated (map name_of (elements instances))
  pub tasks : Fields
  pub tasks_at : find "tasks" config ≡ some (dict tasks)
  pub some_task : entries tasks ≢ []
  pub task_keys : All (λ (s : String × Yaml). IsMappingWith required_task_keys s.1) (entries tasks)
