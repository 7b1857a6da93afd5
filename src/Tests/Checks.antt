-- ===== src/Tests/Checks.antt =====
-- The configuration and the connection strings.
use sql_observability.Base.{[], ◌∷◌, ◌≡◌, ◌↔◌, refl, true, false, ◌||◌, String, none, some, Option}
use sql_observability.Py.Errors.{ok, is_ok}
use sql_observability.Py.Yaml.{Yaml, Fields, end, dict, field, get_or, truthy}
use sql_observability.Config.{
  validate_config, load_config, required_instance_keys, required_repository_keys,
}
use sql_observability.Config.Shape.{IsConfig}
use sql_observability.Config.Soundness.{validate_config-IsConfig}
use sql_observability.Config.Completeness.{validate_config_iff}
use sql_observability.Config.EnvPrefix.{env_var_prefix, IsEnvName, env_var_prefix-IsEnvName}
use sql_observability.Db.Connection.{build_connection_string}
use sql_observability.Db.Connection.Attributes.{
  other_attributes, build_connection_string-attributes,
}
use sql_observability.Db.Connection.Grammar.{read_attributes}
use sql_observability.Db.Connection.Safety.{build_connection_string-instance, integrated, given}
use sql_observability.Tests.Data.{config, instance_fields}

config_accepted : validate_config config ≡ ok tt
unfolding validate_config sql_observability.Config.validate_repository
    sql_observability.Config.validate_monitored_instances sql_observability.Py.Yaml.yaml_eq
    sql_observability.Config.validate_tasks
config_accepted = refl

validate_config_example : IsConfig config
validate_config_example = validate_config-IsConfig config config_accepted

validate_config_iff_example : (validate_config config ≡ ok tt) ↔ IsConfig config
validate_config_iff_example = validate_config_iff config (("SQL1", refl), tt)

prefix_of_name : env_var_prefix "Prod-sql.01" ≡ "PROD_SQL_01"
unfolding env_var_prefix
prefix_of_name = refl

env_var_prefix_example : IsEnvName (env_var_prefix "Prod-sql.01")
env_var_prefix_example = env_var_prefix-IsEnvName "Prod-sql.01"

abbrev anything : Yaml → String
anything v = "?"

abbrev login : Option (String × String)
login = some ("sa", "secret")

abbrev repository_fields : Fields
repository_fields = field "server" (Yaml.text "repo") (
    field "database" (Yaml.text "obs") (
      field "driver" (Yaml.text "ODBC") (
        field "encrypt" (Yaml.bool true) (
          field "trust_server_certificate" (Yaml.bool true)
            (field "integrated_auth" (Yaml.bool false) end)))))

build_connection_string-attributes_example :
    (out : String) × (build_connection_string anything repository_fields login ≡ ok out)
    × (read_attributes out
        ≡ ("DRIVER", "ODBC") ∷ other_attributes anything repository_fields login (Yaml.text "repo"))
unfolding sql_observability.Db.Connection.Grammar.is_plain
build_connection_string-attributes_example =
    build_connection_string-attributes anything repository_fields login (Yaml.text "ODBC")
      (Yaml.text "repo") refl refl refl refl (refl, (refl, (refl, (refl, (refl, (refl, tt))))))

-- The example of a user that begins with a brace: the next attribute is read as part of it.
braced_user : read_attributes "UID={a;PWD=b}" ≡ ("UID", "a;PWD=b") ∷ []
unfolding read_attributes
braced_user = refl

instance_example :
    is_ok (build_connection_string anything instance_fields none)
    ≡ (integrated instance_fields || given none)
instance_example =
    build_connection_string-instance anything instance_fields none
      (refl, (refl, (refl, (refl, (refl, (refl, tt))))))
