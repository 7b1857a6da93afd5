-- ===== src/Db/Connection.antt =====
-- src/db.py: `get_credentials_from_env` and `build_connection_string`.
pub mod Safety
pub mod Grammar
pub mod Attributes
use sql_observability.Base.{
  String, ◌<>◌, true, false, not, ◌&&◌, Option, none, some, List, [], ◌∷◌, ◌==◌, if◌then◌else◌,
}
use sql_observability.Py.Errors.{Result, ok, err, ◌>>=◌, value_error}
use sql_observability.Py.Text.{join}
use sql_observability.Py.Yaml.{Yaml, text, bool, null, Fields, get_or, subscript, truthy}

abbrev pub Credentials : Type 0
Credentials = Option (String × String)

-- `os.environ.get`
abbrev pub Environ : Type 0
Environ = String → Option String

unfoldable pub get_credentials_from_env : Environ → String → Credentials
get_credentials_from_env environ prefix = elim (environ (prefix <> "_USER")) [
  | none ↦ none
  | some user ↦ elim (environ (prefix <> "_PASSWORD")) [
    | none ↦ none
    | some password ↦
        if not (user == "") && not (password == "") then some (user, password) else none
  ]
]

-- `a or b`, with `b` evaluated only if `a` is falsy
abbrev pub or_else : Yaml → Result Yaml → Result Yaml
or_else v other = if truthy v then ok v else other

-- `'yes' if v else 'no'`
abbrev pub yes_no : Yaml → String
yes_no v = if truthy v then "yes" else "no"

module _ (str : Yaml → String) where
  -- `f"{v}"`: a text as it is; `str` gives the text of any other value
  abbrev pub format : Yaml → String
  format v = elim v [ text s ↦ s | other ↦ str other ]

  unfoldable pub auth_parts : Fields → Credentials → Result (List String)
  auth_parts instance_config credentials =
      if truthy (get_or instance_config "integrated_auth" (bool true))
      then ok ("Trusted_Connection=yes" ∷ [])
      else elim credentials [
        | none ↦ err value_error
        | some (user, password) ↦ ok (("UID=" <> user) ∷ ("PWD=" <> password) ∷ [])
      ]

  unfoldable pub build_connection_string : Fields → Credentials → Result String
  unfolding auth_parts
  build_connection_string instance_config credentials = do
    driver ← subscript instance_config "driver"
    server ← or_else (get_or instance_config "server" null) (subscript instance_config "name")
    let database = get_or instance_config "database" (text "master")
    let encrypt = yes_no (get_or instance_config "encrypt" (bool true))
    let trust = yes_no (get_or instance_config "trust_server_certificate" (bool false))
    auth ← auth_parts instance_config credentials
    ok (
        join ";" (
          ("DRIVER={" <> format driver <> "}")
          ∷ ("SERVER=" <> format server)
          ∷ ("DATABASE=" <> format database)
          ∷ ("Encrypt=" <> encrypt)
          ∷ ("TrustServerCertificate=" <> trust)
          ∷ auth))
