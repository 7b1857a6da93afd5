-- ===== src/Db/Connection/Safety.antt =====
-- What src/db.py puts into a connection string, and when it raises instead.
use sql_observability.Base.{◌≡◌, String, Bool, true, false, ◌||◌, none, some, arith}
use sql_observability.Py.Errors.{is_ok}
use sql_observability.Py.Yaml.{Yaml, bool, null, Fields, get_or, truthy}
use sql_observability.Config.{required_instance_keys, required_repository_keys}
use sql_observability.Config.Shape.{HasAll}
use sql_observability.Db.Connection.{Credentials, build_connection_string}

-- `instance_config.get("integrated_auth", True)`, as the code tests it
abbrev pub integrated : Fields → Bool
integrated fs = truthy (get_or fs "integrated_auth" (bool true))

abbrev pub given : Credentials → Bool
given none = false
given (some c) = true

-- With integrated authentication the credentials do not reach the connection string.
pub build_connection_string-integrated :
    (str : Yaml → String) (fs : Fields) (c : Credentials)
    → integrated fs ≡ true
    → build_connection_string str fs c ≡ build_connection_string str fs none
unfolding build_connection_string
build_connection_string-integrated str fs c h = rw h

-- For an entry of `monitored_instances` with the required keys the connection string is built
-- exactly when the authentication is integrated or there are credentials.
pub build_connection_string-instance :
    (str : Yaml → String) (fs : Fields) (c : Credentials)
    → HasAll required_instance_keys fs
    → is_ok (build_connection_string str fs c) ≡ (integrated fs || given c)
unfolding build_connection_string
build_connection_string-instance str fs c h = ground (arith)

-- The same for the `repository` section, which has no name to fall back on: its server must not be
-- empty.
pub build_connection_string-repository :
    (str : Yaml → String) (fs : Fields) (c : Credentials)
    → HasAll required_repository_keys fs
    → truthy (get_or fs "server" null) ≡ true
    → is_ok (build_connection_string str fs c) ≡ (integrated fs || given c)
unfolding build_connection_string
build_connection_string-repository str fs c h server = ground (arith)
