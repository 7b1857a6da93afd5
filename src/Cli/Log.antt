-- ===== src/Cli/Log.antt =====
-- `dbo.collection_run` over a whole run of run.py.
use sql_observability.Base.{Bool, Option}
use sql_observability.Py.Errors.{Result}
use sql_observability.Py.Yaml.{Yaml}
use sql_observability.Db.Server.{World, Server}
use sql_observability.Db.Server.Keeps.{Both}
use sql_observability.Collector.Logging.{run-Keeps}
use sql_observability.Collector.Log.{IsLog, IsLog-IsKept, IsLog-restore}
use sql_observability.Tasks.Registry.{Task}
use sql_observability.Cli.{Outside, main}
use sql_observability.Cli.Keeps.{main-Keeps}

-- Whatever the configuration, and whichever calls fail, the program keeps the log well formed, for
-- other connections and inside the transaction.
pub main-IsLog :
    (w : World) (o : Outside) (file : Option (Result Yaml)) (t : Task) (dry_run : Bool) (s : Server)
    → Both IsLog s
    → Both IsLog (main w o file t dry_run s).1
main-IsLog w o file t dry_run s h =
    (main-Keeps w o t dry_run
        (λ c source_instance fetched. run-Keeps (IsLog-IsKept w c) source_instance fetched dry_run)
        IsLog-restore file).at
      s h
