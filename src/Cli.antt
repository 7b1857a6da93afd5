-- ===== src/Cli.antt =====
-- run.py: `_connect` and the loop of `main` over the monitored instances.
pub mod Exit
pub mod Keeps
pub mod Log
pub mod Dry
pub mod Refinement
pub mod Success
pub mod Calm
pub mod Arguments
use sql_observability.Base.{
  ℕ, String, Bool, true, false, Option, none, some, List, [], ◌∷◌, if◌then◌else◌,
}
use sql_observability.Py.Errors.{Result, ok, err, type_error, is_ok}
use sql_observability.Py.Datetime.{Datetime}
use sql_observability.Py.Yaml.{
  Yaml, dict, list, text, bool, Fields, elements, subscript, get_or, truthy,
}
use sql_observability.Py.Xml.{Parsers}
use sql_observability.Config.{load_config}
use sql_observability.Config.EnvPrefix.{env_var_prefix}
use sql_observability.Db.Connection.{
  Credentials, Environ, get_credentials_from_env, build_connection_string,
}
use sql_observability.Db.Server.{World, Server, Action, ◌>>=◌, ◌>>◌, lift, throw, fetch, roll_back}
use sql_observability.Db.Calls.{get_watermark}
use sql_observability.Db.Query.{Source, execute}
use sql_observability.Collector.{Collector, run}
use sql_observability.Tasks.Context.{Context}
use sql_observability.Tasks.Registry.{Task, name, collector}

-- What surrounds the process: the environment, `str` of a value, the parsers, the clock, and what
-- each source instance answers.
pub record Outside : Type 0 where
  pub environ : Environ
  pub str : Yaml → String
  pub parsers : Parsers
  pub now : Datetime
  pub source_of : String → Source

-- `_connect`, up to the connection string that `pyodbc.connect` gets
unfoldable pub connect_string : Outside → Fields → String → Result String
connect_string o instance_config env_prefix =
    let credentials : Credentials =
      if truthy (get_or instance_config "integrated_auth" (bool true))
      then none
      else get_credentials_from_env o.environ env_prefix in
    build_connection_string o.str instance_config credentials

-- The collectors whose `run` reads a watermark first.
abbrev pub is_incremental : Task → Bool
is_incremental Task.workload = true
is_incremental Task.deadlocks = true
is_incremental _ = false

module _ (w : World) (o : Outside) (config : Fields) (t : Task) (dry_run : Bool) where
  -- the collector object of an instance, with its watermark
  abbrev pub context : String → Option Datetime → Context
  context source_instance watermark = record {
    source_instance = source_instance;
    config = config;
    now = o.now;
    watermark = watermark;
  }

  -- `super().run` of a collector object
  unfoldable pub run_collector : Collector → String → Action ℕ
  run_collector c source_instance =
      run w c source_instance (c.fetch_rows (execute (o.source_of source_instance))) dry_run

  -- `collector.run`
  unfoldable pub run_task : String → Action ℕ
  unfolding run_collector
  run_task source_instance =
      if is_incremental t
      then (do
        watermark ← get_watermark w source_instance (name t)
        run_collector (collector o.parsers (context source_instance watermark) t) source_instance)
      else run_collector (collector o.parsers (context source_instance none) t) source_instance

  -- `config["repository"]`
  abbrev pub repository : Result Fields
  repository = elim (subscript config "repository") [
    | err e ↦ err e
    | ok v ↦ elim v [ dict fs ↦ ok fs | _ ↦ err type_error ]
  ]

  -- The body of the `try`, for an instance and its name. The connections are calls that may fail.
  unfoldable pub try_instance : Fields → Yaml → Action ℕ
  unfolding run_task
  try_instance instance' (text source_instance) = do
    lift (connect_string o instance' (env_var_prefix source_instance))
    fetch w
    repo ← lift repository
    lift (connect_string o repo "REPO_SQL")
    fetch w
    run_task source_instance
  try_instance instance' _ = throw type_error

  -- The loop: an entry that is no mapping with a name ends the program; an exception of the body
  -- sets the exit code. `finally` closes the connections.
  unfoldable pub each_instance : List Yaml → ℕ → Action ℕ
  each_instance [] exit_code s = (ok exit_code, s)
  each_instance (v ∷ rest) exit_code s = elim v [
    | dict fs ↦ elim (subscript fs "name") [
      | err e ↦ (err e, s)
      | ok n ↦
          let done = try_instance fs n s in
          each_instance rest (if is_ok done.0 then exit_code else 1) (roll_back done.1)
    ]
    | _ ↦ (err type_error, s)
  ]

  -- The loop is over a list.
  abbrev pub over_instances : Yaml → Action ℕ
  over_instances (list vs) = each_instance (elements vs) 0
  over_instances _ = throw type_error

-- `main`, past the command line.
unfoldable pub main : World → Outside → Option (Result Yaml) → Task → Bool → Action ℕ
unfolding each_instance
main w o file t dry_run = do
  config ← lift (load_config file)
  instances ← lift (subscript config "monitored_instances")
  over_instances w o config t dry_run instances
