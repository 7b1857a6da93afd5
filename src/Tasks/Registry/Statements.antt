-- ===== src/Tasks/Registry/Statements.antt =====
-- The MERGE statements of the collectors against their columns.
use sql_observability.Base.{◌≡◌, refl, true, not, ◌||◌, String, some, List, All, all, contains}
use sql_observability.Py.Xml.{Parsers}
use sql_observability.Py.Row.{Scalar}
use sql_observability.Db.Server.{World, Fact, Merge}
use sql_observability.Db.Merge.{merge_batch}
use sql_observability.Db.Merge.Twice.{key_columns, IsConsistent, IsKeyed, merge_batch-merge_batch}
use sql_observability.Tasks.Context.{Context}
use sql_observability.Tasks.Registry.{Task, name, task_named, collector}

-- The placeholders stand for the columns in their order, all columns are inserted, and every column
-- is joined on or updated, but not both.
abbrev pub IsFor : List String → Merge → Type 0
IsFor columns m =
    (m.source ≡ columns)
    × (m.insert ≡ columns)
    × (all (λ c. contains m.update c || contains (key_columns m.on) c) columns ≡ true)
    × (all (contains columns) m.update ≡ true)
    × (all (contains columns) (key_columns m.on) ≡ true)
    × (all (λ c. not (contains m.update c)) (key_columns m.on) ≡ true)

-- For every task, the placeholders of the statement stand for the columns of its collector in their
-- order, all of these are inserted, and each of them is either joined on or updated.
pub upsert-IsFor :
    (p : Parsers) (ctx : Context) (t : Task)
    → IsFor (collector p ctx t).columns (collector p ctx t).upsert
upsert-IsFor p ctx Task.cpu = (refl, refl, refl, refl, refl, refl)
upsert-IsFor p ctx Task.waits = (refl, refl, refl, refl, refl, refl)
upsert-IsFor p ctx Task.query_perf = (refl, refl, refl, refl, refl, refl)
upsert-IsFor p ctx Task.storage = (refl, refl, refl, refl, refl, refl)
upsert-IsFor p ctx Task.index_ops = (refl, refl, refl, refl, refl, refl)
upsert-IsFor p ctx Task.table_access = (refl, refl, refl, refl, refl, refl)
upsert-IsFor p ctx Task.health = (refl, refl, refl, refl, refl, refl)
upsert-IsFor p ctx Task.workload = (refl, refl, refl, refl, refl, refl)
upsert-IsFor p ctx Task.sessions = (refl, refl, refl, refl, refl, refl)
upsert-IsFor p ctx Task.concurrency = (refl, refl, refl, refl, refl, refl)
upsert-IsFor p ctx Task.io_latency = (refl, refl, refl, refl, refl, refl)
upsert-IsFor p ctx Task.blocking = (refl, refl, refl, refl, refl, refl)
upsert-IsFor p ctx Task.deadlocks = (refl, refl, refl, refl, refl, refl)

-- The command line's name of a task leads to the collector that logs its runs under that name.
pub task_named-name :
    (p : Parsers) (ctx : Context) (t : Task)
    → (task_named (name t) ≡ some t) × ((collector p ctx t).task_name ≡ name t)
unfolding task_named
task_named-name p ctx Task.cpu = (refl, refl)
task_named-name p ctx Task.waits = (refl, refl)
task_named-name p ctx Task.query_perf = (refl, refl)
task_named-name p ctx Task.storage = (refl, refl)
task_named-name p ctx Task.index_ops = (refl, refl)
task_named-name p ctx Task.table_access = (refl, refl)
task_named-name p ctx Task.health = (refl, refl)
task_named-name p ctx Task.workload = (refl, refl)
task_named-name p ctx Task.sessions = (refl, refl)
task_named-name p ctx Task.concurrency = (refl, refl)
task_named-name p ctx Task.io_latency = (refl, refl)
task_named-name p ctx Task.blocking = (refl, refl)
task_named-name p ctx Task.deadlocks = (refl, refl)

pub upsert-IsConsistent :
    (p : Parsers) (ctx : Context) (t : Task) → IsConsistent (collector p ctx t).upsert
upsert-IsConsistent p ctx Task.cpu = (refl, refl, refl)
upsert-IsConsistent p ctx Task.waits = (refl, refl, refl)
upsert-IsConsistent p ctx Task.query_perf = (refl, refl, refl)
upsert-IsConsistent p ctx Task.storage = (refl, refl, refl)
upsert-IsConsistent p ctx Task.index_ops = (refl, refl, refl)
upsert-IsConsistent p ctx Task.table_access = (refl, refl, refl)
upsert-IsConsistent p ctx Task.health = (refl, refl, refl)
upsert-IsConsistent p ctx Task.workload = (refl, refl, refl)
upsert-IsConsistent p ctx Task.sessions = (refl, refl, refl)
upsert-IsConsistent p ctx Task.concurrency = (refl, refl, refl)
upsert-IsConsistent p ctx Task.io_latency = (refl, refl, refl)
upsert-IsConsistent p ctx Task.blocking = (refl, refl, refl)
upsert-IsConsistent p ctx Task.deadlocks = (refl, refl, refl)

-- For every task, a batch in which every tuple of parameters has a key leaves the table the same
-- whether it is sent once or twice.
pub upsert_twice :
    (p : Parsers) (ctx : Context) (t : Task) (w : World) (batch : List (List Scalar))
    (table : List Fact)
    → All (IsKeyed w (collector p ctx t).upsert) batch
    → merge_batch w
        (collector p ctx t).upsert
        batch
        (merge_batch w (collector p ctx t).upsert batch table)
      ≡ merge_batch w (collector p ctx t).upsert batch table
upsert_twice p ctx t w batch table keyed =
    merge_batch-merge_batch w (collector p ctx t).upsert batch table (upsert-IsConsistent p ctx t)
      keyed
