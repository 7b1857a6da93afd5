-- ===== src/Cli/Dry.antt =====
-- `--dry-run` of run.py.
use sql_observability.Base.{ℕ, ap, ap₂, ◌∙◌, arith, ◌≡◌, refl, sym, String, true, Option, List}
use sql_observability.Py.Errors.{Result}
use sql_observability.Py.Yaml.{Yaml}
use sql_observability.Py.Row.{Row}
use sql_observability.Db.Server.{World, Store, Server, restore, highest}
use sql_observability.Db.Server.Keeps.{Keeps}
use sql_observability.Collector.{Collector, run}
use sql_observability.Collector.Dry.{run_dry}
use sql_observability.Tasks.Registry.{Task}
use sql_observability.Cli.{Outside, main}
use sql_observability.Cli.Keeps.{main-Keeps}

run_dry-Keeps :
    (w : World) (P : Store → Type 0) (c : Collector) (source_instance : String)
    (fetched : Result (List Row))
    → Keeps P (run w c source_instance fetched true)
run_dry-Keeps w P c source_instance fetched = record {
  at = λ s h. rw (run_dry w c source_instance fetched s) h;
}

highest_refl : (n : ℕ) → highest n n ≡ n
highest_refl n = ground arith

restore-same :
    (before kept given_up : Store)
    → kept ≡ before
    → given_up ≡ before
    → restore kept given_up ≡ before
restore-same before kept given_up same other =
    ap₂ restore same other ∙ ap (λ n. record before { next_id = n }) (highest_refl before.next_id)

-- A dry run of the whole program, begun with no transaction open, leaves every table of the
-- repository as it was, whatever the configuration and the sources hold, and whichever calls fail.
pub main_dry :
    (w : World) (o : Outside) (file : Option (Result Yaml)) (t : Task) (s : Server)
    → s.committed ≡ s.working
    → let s' = (main w o file t true s).1 in
      (s'.committed ≡ s.committed) × (s'.working ≡ s.committed)
main_dry w o file t s fresh =
    (main-Keeps w o t true (run_dry-Keeps w (λ store. store ≡ s.committed))
        (restore-same s.committed) file).at
      s (refl, sym fresh)
