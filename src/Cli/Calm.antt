-- ===== src/Cli/Calm.antt =====
-- run.py on a day without failures: every instance is served, and the exit code is 0.
use sql_observability.Base.{
  ◌≡◌, refl, sym, ap, ◌∙◌, subst, ℕ, String, Bool, false, Option, none, some, List, [], ◌∷◌, All,
  length,
}
use sql_observability.Py.Errors.{Result, ok}
use sql_observability.Py.Yaml.{
  Yaml, Items, find, null, dict, list, text, Fields, elements, subscript, get_or,
}
use sql_observability.Py.Row.{Row}
use sql_observability.Db.Server.{World, Server, Action, roll_back, ◌>>=◌, and_then, lift, fetch}
use sql_observability.Db.Query.{execute}
use sql_observability.Config.{load_config, required_instance_keys}
use sql_observability.Config.Shape.{IsMappingWith}
use sql_observability.Config.EnvPrefix.{env_var_prefix}
use sql_observability.Tasks.Registry.{Task, collector}
use sql_observability.Tasks.Registry.Returns.{IsReady, IsSourceRow}
use sql_observability.Cli.{
  Outside, context, connect_string, repository, is_incremental, run_task, try_instance,
  each_instance, main,
}
use sql_observability.Cli.Exit.{each_instance-cons, load_config-IsConfig}
use sql_observability.Cli.Success.{run_collector-returns}

-- `m` returns from every server.
pub record Returns {A : Type 0} (m : Action A) : Type 0 where
  pub at : (s : Server) → (a : A) × ((m s).0 ≡ ok a)

module _ {A B : Type 0} where
  and_then-ok :
      (r : Result A) (value : A) (next : A → Action B) (s : Server)
      → r ≡ ok value
      → Returns (next value)
      → (b : B) × ((and_then r next s).0 ≡ ok b)
  and_then-ok r value next s is returns = rw is (returns.at s)

  -- A call that the world lets through.
  Returns-bind :
      (first : Action A) (next : A → Action B)
      → Returns first
      → ((value : A) → Returns (next value))
      → Returns (first >>= next)
  unfolding ◌>>=◌
  Returns-bind first next returns after = record {
    at = λ s.
        let (value, is) = returns.at s in
        and_then-ok (first s).0 value next (first s).1 is (after value);
  }

  -- A pure step that gives `value`.
  Returns-lift :
      (r : Result A) (value : A) (next : A → Action B)
      → r ≡ ok value
      → Returns (next value)
      → Returns (lift r >>= next)
  unfolding ◌>>=◌
  Returns-lift r value next is returns = record { at = λ s. and_then-ok r value next s is returns }

Returns-fetch : (w : World) → ((n : ℕ) → w.failure n ≡ none) → Returns (fetch w)
unfolding fetch
Returns-fetch w calm = record { at = λ s. (tt, rw (calm s.calls) refl) }

-- What an instance needs to be served: its name is a text, the connection string can be built, the
-- source answers the task's queries with rows that they can give, and the task is ready for them.
pub record IsServed (w : World) (o : Outside) (config : Fields) (t : Task) (dry_run : Bool)
    (instance_config : Fields) : Type 0 where
  pub source_instance : String
  pub named : get_or instance_config "name" null ≡ text source_instance
  pub source_string : String
  pub source_connects :
      connect_string o instance_config (env_var_prefix source_instance) ≡ ok source_string
  pub rows : List Row
  pub fetched :
      (collector o.parsers (context w o config t dry_run source_instance none) t).fetch_rows
        (execute (o.source_of source_instance))
      ≡ ok rows
  pub ready : IsReady (context w o config t dry_run source_instance none) t
  pub shaped : All (IsSourceRow o.parsers t) rows

-- The same of an entry of the configuration.
abbrev pub IsServable : World → Outside → Fields → Task → Bool → Yaml → Type 0
IsServable w o config t dry_run (dict fs) = IsServed w o config t dry_run fs
IsServable w o config t dry_run _ = ⊥

-- The connection string of the repository can be built.
abbrev pub HasRepository : World → Outside → Fields → Task → Bool → Type 0
HasRepository w o config t dry_run =
    (repo : Fields) × (repository w o config t dry_run ≡ ok repo)
    × ((repo_string : String) × (connect_string o repo "REPO_SQL" ≡ ok repo_string))

module _ (w : World) (calm : (n : ℕ) → w.failure n ≡ none) (o : Outside) (config : Fields)
    (t : Task) (dry_run : Bool) where
  run_task-Returns :
      (source_instance : String) (rows : List Row)
      → is_incremental t ≡ false
      → (collector o.parsers (context w o config t dry_run source_instance none) t).fetch_rows
          (execute (o.source_of source_instance))
        ≡ ok rows
      → IsReady (context w o config t dry_run source_instance none) t
      → All (IsSourceRow o.parsers t) rows
      → Returns (run_task w o config t dry_run source_instance)
  unfolding run_task
  run_task-Returns source_instance rows single fetched ready shaped = record {
    at = λ s.
        let (out, _, returned) =
          run_collector-returns w o config t dry_run
            (context w o config t dry_run source_instance none) source_instance rows s calm fetched
            ready shaped in
        (length out, rw single returned);
  }

  try_instance-Returns :
      (fs : Fields) (v : Yaml)
      → is_incremental t ≡ false
      → HasRepository w o config t dry_run
      → (served : IsServed w o config t dry_run fs) → v ≡ text served.source_instance
      → Returns (try_instance w o config t dry_run fs v)
  unfolding try_instance
  try_instance-Returns fs v single (repo, repo_at, (repo_string, target)) served named =
      subst (λ x. Returns (try_instance w o config t dry_run fs x)) (sym named)
        (Returns-lift _ served.source_string _ served.source_connects (
          Returns-bind _ _ (Returns-fetch w calm) λ u. Returns-lift _ repo _ repo_at (
            Returns-lift _ repo_string _ target (
              Returns-bind _ _ (Returns-fetch w calm) λ u.
                run_task-Returns served.source_instance served.rows single served.fetched
                  served.ready served.shaped))))

  each_instance-returns :
      (vs : List Yaml) (code : ℕ) (s : Server)
      → is_incremental t ≡ false
      → HasRepository w o config t dry_run
      → All (IsMappingWith required_instance_keys) vs
      → All (IsServable w o config t dry_run) vs
      → (each_instance w o config t dry_run vs code s).0 ≡ ok code
  unfolding each_instance
  each_instance-returns [] code s single repo shapes served = refl
  each_instance-returns (dict fs ∷ rest) code s single repo shapes served =
      let v = get_or fs "name" null in
      let (n, done) = (try_instance-Returns fs v single repo served.0 served.0.named).at s in
      ap (λ p. p.0) (each_instance-cons w o config t dry_run fs rest code s shapes.0.0)
      ∙ rw done (
          each_instance-returns rest code (roll_back (try_instance w o config t dry_run fs v s).1)
            single repo shapes.1 served.1)
  each_instance-returns (v ∷ rest) code s single repo shapes served = absurd (served.0)

list_inj : (xs ys : Items) → some (list xs) ≡ some (list ys) → xs ≡ ys
list_inj xs ys h = cc

-- For a task that reads no watermark: if the configuration loads, no call of the repository fails,
-- the connection string of the repository can be built, and each instance has what it needs to be
-- served, then the program ends with exit code 0, dry or not.
pub main-returns :
    (w : World) (o : Outside) (file : Option (Result Yaml)) (t : Task) (dry_run : Bool) (s : Server)
    (config : Fields) (instances : Items)
    → load_config file ≡ ok config
    → find "monitored_instances" config ≡ some (list instances)
    → ((n : ℕ) → w.failure n ≡ none)
    → is_incremental t ≡ false
    → HasRepository w o config t dry_run
    → All (IsServable w o config t dry_run) (elements instances)
    → (main w o file t dry_run s).0 ≡ ok 0
unfolding main ◌>>=◌
main-returns w o file t dry_run s config instances loaded at calm single repo served =
    let c = load_config-IsConfig file config loaded in
    let same = list_inj c.instances instances (sym c.instances_at ∙ at) in
    let shapes =
      subst (λ vs. All (IsMappingWith required_instance_keys) (elements vs)) same c.instance_keys in
    rw (loaded, subscript, at)
      (each_instance-returns w calm o config t dry_run (elements instances) 0 s single repo shapes
        served)
