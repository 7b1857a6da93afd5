-- ===== src/Cli/Keeps.antt =====
-- A property of the stored tables that every run of a collector keeps is kept by run.py.
use sql_observability.Base.{ℕ, String, Bool, Option, List, [], ◌∷◌, if◌then◌else◌, inl, inr}
use sql_observability.Py.Errors.{Result, is_ok, Result-cases}
use sql_observability.Py.Yaml.{Yaml, null, bool, int, dict, list, text, Fields, elements, subscript}
use sql_observability.Py.Row.{Row}
use sql_observability.Config.{load_config}
use sql_observability.Db.Server.{World, Store, Server, roll_back, restore}
use sql_observability.Db.Server.Keeps.{Both, Keeps, Keeps-bind, Keeps-lift, keeps_rules}
use sql_observability.Db.Calls.{get_watermark}
use sql_observability.Collector.{Collector, run}
use sql_observability.Tasks.Registry.{Task}
use sql_observability.Cli.{Outside, run_task, try_instance, each_instance, over_instances, main}

pub get_watermark-Keeps :
    {P : Store → Type 0} (w : World) (source_instance task : String)
    → Keeps P (get_watermark w source_instance task)
unfolding get_watermark
get_watermark-Keeps w source_instance task = search keeps_rules

module _ {P : Store → Type 0} (w : World) (o : Outside) (t : Task) (dry_run : Bool)
    (keep : (c : Collector) (source_instance : String) (fetched : Result (List Row))
      → Keeps P (run w c source_instance fetched dry_run)) where
  run_task-Keeps :
      (config : Fields) (source_instance : String)
      → Keeps P (run_task w o config t dry_run source_instance)
  unfolding run_task
  run_task-Keeps config source_instance = search (keeps_rules, get_watermark-Keeps, keep)

  pub try_instance-Keeps :
      (config : Fields) (fs : Fields) (n : Yaml) → Keeps P (try_instance w o config t dry_run fs n)
  unfolding try_instance
  try_instance-Keeps config fs (text source_instance) =
      search (keeps_rules, run_task-Keeps config) depth 14
  try_instance-Keeps config fs _ = search keeps_rules

  module _
      (closes : (kept given_up : Store) → P kept → P given_up → P (restore kept given_up)) where
    each_instance-Both :
        (config : Fields) (vs : List Yaml) (exit_code : ℕ) (s : Server)
        → Both P s
        → Both P (each_instance w o config t dry_run vs exit_code s).1
    unfolding each_instance
    each_instance-Both config [] exit_code s h = h
    each_instance-Both config (dict fs ∷ rest) exit_code s h =
        elim (Result-cases (subscript fs "name")) [
          | inl (n, named) ↦
              let attempt = try_instance w o config t dry_run fs n s in
              let kept = (try_instance-Keeps config fs n).at s h in
              rw (each_instance, named)
                (each_instance-Both config rest (if is_ok attempt.0 then exit_code else 1)
                  (roll_back attempt.1)
                  (let closed = closes attempt.1.committed attempt.1.working kept.0 kept.1 in
                    (closed, closed)))
          | inr (e, unnamed) ↦ rw (each_instance, unnamed) h
        ]
    each_instance-Both config (null ∷ rest) exit_code s h = h
    each_instance-Both config (bool b ∷ rest) exit_code s h = h
    each_instance-Both config (int n ∷ rest) exit_code s h = h
    each_instance-Both config (text n ∷ rest) exit_code s h = h
    each_instance-Both config (list n ∷ rest) exit_code s h = h

    over_instances-Keeps :
        (config : Fields) (v : Yaml) → Keeps P (over_instances w o config t dry_run v)
    over_instances-Keeps config (list vs) = record {
      at = each_instance-Both config (elements vs) 0;
    }
    over_instances-Keeps config _ = search keeps_rules

    pub main-Keeps : (file : Option (Result Yaml)) → Keeps P (main w o file t dry_run)
    unfolding main
    main-Keeps file = Keeps-bind _ _ (Keeps-lift (load_config file)) λ config.
        Keeps-bind _ _ (Keeps-lift (subscript config "monitored_instances"))
          λ instances. over_instances-Keeps config instances
