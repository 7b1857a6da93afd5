-- ===== src/Tasks/Registry/Rows.antt =====
-- The rows of the collectors against their statements.
use sql_observability.Base.{
  ◌≡◌, refl, ◌∙◌, sym, ap, subst, true, List, All, All-weaken, all, contains, length,
}
use sql_observability.Py.Errors.{ok}
use sql_observability.Py.Xml.{Parsers}
use sql_observability.Py.Row.{Row, keys, project-keys}
use sql_observability.Tasks.Context.{Context}
use sql_observability.Collector.Success.{IsStorable}
use sql_observability.Tasks.Registry.{Task, collector}
use sql_observability.Tasks.Registry.Statements.{upsert-IsFor}
use sql_observability.Tasks.Cpu
use sql_observability.Tasks.Waits
use sql_observability.Tasks.QueryPerf.Hashes
use sql_observability.Tasks.Storage
use sql_observability.Tasks.IndexOps
use sql_observability.Tasks.TableAccess
use sql_observability.Tasks.Health
use sql_observability.Tasks.Workload.Groups
use sql_observability.Tasks.Sessions
use sql_observability.Tasks.Concurrency
use sql_observability.Tasks.IoLatency
use sql_observability.Tasks.Blocking
use sql_observability.Tasks.Deadlocks.Victim

transform-keys :
    (p : Parsers) (ctx : Context) (t : Task) (rows out : List Row)
    → (collector p ctx t).transform rows ≡ ok out
    → All (λ r. keys r ≡ (collector p ctx t).columns) out
transform-keys p ctx Task.cpu rows out h = Cpu.transform-keys ctx rows out h
transform-keys p ctx Task.waits rows out h = Waits.transform-keys ctx rows out h
transform-keys p ctx Task.query_perf rows out h = Hashes.transform-keys ctx rows out h
transform-keys p ctx Task.storage rows out h = Storage.transform-keys ctx rows out h
transform-keys p ctx Task.index_ops rows out h = IndexOps.transform-keys ctx rows out h
transform-keys p ctx Task.table_access rows out h = TableAccess.transform-keys ctx rows out h
transform-keys p ctx Task.health rows out h = Health.transform-keys ctx rows out h
transform-keys p ctx Task.workload rows out h = Groups.transform-keys p ctx rows out h
transform-keys p ctx Task.sessions rows out h = Sessions.transform-keys ctx rows out h
transform-keys p ctx Task.concurrency rows out h = Concurrency.transform-keys ctx rows out h
transform-keys p ctx Task.io_latency rows out h = IoLatency.transform-keys ctx rows out h
transform-keys p ctx Task.blocking rows out h = Blocking.transform-keys ctx rows out h
transform-keys p ctx Task.deadlocks rows out h = Victim.transform-keys p ctx rows out h

columns_within :
    (p : Parsers) (ctx : Context) (t : Task)
    → all (contains (collector p ctx t).columns) (collector p ctx t).columns ≡ true
columns_within p ctx Task.cpu = refl
columns_within p ctx Task.waits = refl
columns_within p ctx Task.query_perf = refl
columns_within p ctx Task.storage = refl
columns_within p ctx Task.index_ops = refl
columns_within p ctx Task.table_access = refl
columns_within p ctx Task.health = refl
columns_within p ctx Task.workload = refl
columns_within p ctx Task.sessions = refl
columns_within p ctx Task.concurrency = refl
columns_within p ctx Task.io_latency = refl
columns_within p ctx Task.blocking = refl
columns_within p ctx Task.deadlocks = refl

-- For every task, what its transform returns has, in each row, exactly the collector's columns, and
-- a parameter for each placeholder of its statement.
pub transform-IsStorable :
    (p : Parsers) (ctx : Context) (t : Task) (rows out : List Row)
    → (collector p ctx t).transform rows ≡ ok out
    → All (λ r. (keys r ≡ (collector p ctx t).columns) × IsStorable (collector p ctx t) r) out
transform-IsStorable p ctx t rows out h =
    All-weaken _ _ out
      (λ r same.
        let within =
          subst (λ ks. all (contains ks) (collector p ctx t).columns ≡ true) (sym same)
            (columns_within p ctx t) in
        let (vs, e, n) = project-keys (collector p ctx t).columns r within in
        (same, (vs, e, n ∙ ap length (sym (upsert-IsFor p ctx t).0))))
      (transform-keys p ctx t rows out h)
