-- ===== src/Collector/PerDatabase.antt =====
-- src/collectors/base.py: PerDatabaseCollector, which asks a source instance once for each database.
pub mod Use
pub mod Tags
use sql_observability.Base.{
  ◌≡◌, refl, subst, String, ◌<>◌, Option, none, some, List, [], ◌∷◌, ◌++◌, map, All, All-append,
  inl, inr, eq_refl, ◌==◌, if◌then◌else◌, Bool-cases,
}
use sql_observability.Py.Errors.{
  ok_inj, Result, ok, err, type_error, attribute_error, ◌>>=◌, traverse, >>=-eq-ok,
}
use sql_observability.Py.Text.{replace, characters}
use sql_observability.Py.Yaml.{Yaml, Items, Fields, elements, entries, get_or, truthy, yaml_eq}
use sql_observability.Py.Row.{Row, Scalar, item, put}

-- `list(databases)` of a value that is true
unfoldable pub database_list : Yaml → Result (List Yaml)
unfolding characters
database_list (Yaml.list vs) = ok (elements vs)
database_list (Yaml.dict fs) = ok (map (λ e. Yaml.text e.0) (entries fs))
database_list (Yaml.text s) = ok (map Yaml.text (characters s))
database_list _ = err type_error

-- The loop of `_configured_databases`: the first instance of this name decides.
unfoldable pub search_instances : String → List Yaml → Result (Option (List Yaml))
unfolding database_list
search_instances source_instance [] = ok none
search_instances source_instance (v ∷ rest) =
    let others = search_instances source_instance rest in
    elim v [
      | Yaml.dict fs ↦
          if yaml_eq (get_or fs "name" Yaml.null) (Yaml.text source_instance)
          then (if truthy (get_or fs "databases" Yaml.null)
              then (database_list (get_or fs "databases" Yaml.null) >>= λ names. ok (some names))
              else ok none)
          else others
      | _ ↦ err attribute_error
    ]

unfoldable pub configured_databases : Fields → String → Result (Option (List Yaml))
unfolding search_instances
configured_databases config source_instance =
    elim (get_or config "monitored_instances" (Yaml.list Items.nil)) [
      | Yaml.list vs ↦ search_instances source_instance (elements vs)
      | Yaml.dict (Fields.field k v fs) ↦ err attribute_error
      | Yaml.dict Fields.end ↦ ok none
      | Yaml.text s ↦ if s == "" then ok none else err attribute_error
      | _ ↦ err type_error
    ]

-- `database_name.replace` raises for a value that is no text
abbrev pub name_of_yaml : Yaml → Result String
name_of_yaml (Yaml.text s) = ok s
name_of_yaml _ = err attribute_error

abbrev pub name_of_scalar : Scalar → Result String
name_of_scalar (Scalar.text s) = ok s
name_of_scalar _ = err attribute_error

-- `execute` is what the source instance answers to a query.
module _ (execute : String → Result (List Row)) where
  -- `r["name"]` of each row
  abbrev pub discover_databases : Result (List Scalar)
  discover_databases = do
    rows ← execute "SELECT name FROM sys.databases WHERE state_desc = 'ONLINE' AND database_id > 4;"
    traverse (λ r. item r "name") rows

  -- The body of the loop of `fetch_rows`, for one database.
  unfoldable pub fetch_database : String → String → Result (List Row)
  unfolding replace
  fetch_database source_query database_name = do
    rows ← execute ("USE [" <> replace 93 "]]" database_name <> "];\n" <> source_query)
    ok (map (put "database_name" (Scalar.text database_name)) rows)

  unfoldable pub fetch_databases :
      {A : Type 0} → (A → Result String) → String → List A → Result (List Row)
  fetch_databases name source_query [] = ok []
  fetch_databases name source_query (a ∷ names) = do
    database_name ← name a
    rows ← fetch_database source_query database_name
    rest ← fetch_databases name source_query names
    ok (rows ++ rest)

  -- `target_databases`, and the loop over what it returns
  unfoldable pub fetch_chosen : String → Option (List Yaml) → Result (List Row)
  unfolding fetch_databases
  fetch_chosen source_query (some names) = fetch_databases name_of_yaml source_query names
  fetch_chosen source_query none = do
    names ← discover_databases
    fetch_databases name_of_scalar source_query names

  unfoldable pub fetch_rows : Fields → String → String → Result (List Row)
  unfolding fetch_chosen configured_databases
  fetch_rows config source_instance source_query = do
    configured ← configured_databases config source_instance
    fetch_chosen source_query configured
