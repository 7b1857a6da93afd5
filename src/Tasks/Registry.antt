-- ===== src/Tasks/Registry.antt =====
-- TASK_REGISTRY of run.py: a task for each collector class, by the name on the command line.
pub mod Statements
pub mod Rows
pub mod Returns
pub mod Retry
use sql_observability.Base.{String, Option, none, some, ◌==◌, if◌then◌else◌}
use sql_observability.Py.Xml.{Parsers}
use sql_observability.Collector.{Collector}
use sql_observability.Tasks.Context.{Context}
use sql_observability.Tasks.Blocking
use sql_observability.Tasks.Concurrency
use sql_observability.Tasks.Cpu
use sql_observability.Tasks.Deadlocks
use sql_observability.Tasks.Health
use sql_observability.Tasks.IndexOps
use sql_observability.Tasks.IoLatency
use sql_observability.Tasks.QueryPerf
use sql_observability.Tasks.Sessions
use sql_observability.Tasks.Storage
use sql_observability.Tasks.TableAccess
use sql_observability.Tasks.Waits
use sql_observability.Tasks.Workload

pub data Task : Type 0 where
  cpu : Task
  waits : Task
  query_perf : Task
  storage : Task
  index_ops : Task
  table_access : Task
  health : Task
  workload : Task
  sessions : Task
  concurrency : Task
  io_latency : Task
  blocking : Task
  deadlocks : Task

-- the key in the registry
abbrev pub name : Task → String
name cpu = "cpu"
name waits = "waits"
name query_perf = "query_perf"
name storage = "storage"
name index_ops = "index_ops"
name table_access = "table_access"
name health = "health"
name workload = "workload"
name sessions = "sessions"
name concurrency = "concurrency"
name io_latency = "io_latency"
name blocking = "blocking"
name deadlocks = "deadlocks"

-- `TASK_REGISTRY[args.task]`, for the names that the command line accepts
unfoldable pub task_named : String → Option Task
task_named s =
    if s == "cpu"
    then some cpu
    else if s == "waits"
    then some waits
    else if s == "query_perf"
    then some query_perf
    else if s == "storage"
    then some storage
    else if s == "index_ops"
    then some index_ops
    else if s == "table_access"
    then some table_access
    else if s == "health"
    then some health
    else if s == "workload"
    then some workload
    else if s == "sessions"
    then some sessions
    else if s == "concurrency"
    then some concurrency
    else if s == "io_latency"
    then some io_latency
    else if s == "blocking"
    then some blocking
    else if s == "deadlocks"
    then some deadlocks
    else none

-- The object that `collector_cls(source_instance, config)` makes, at the time of its run.
abbrev pub collector : Parsers → Context → Task → Collector
collector p ctx cpu = Cpu.collector ctx
collector p ctx waits = Waits.collector ctx
collector p ctx query_perf = QueryPerf.collector p ctx
collector p ctx storage = Storage.collector ctx
collector p ctx index_ops = IndexOps.collector ctx
collector p ctx table_access = TableAccess.collector ctx
collector p ctx health = Health.collector ctx
collector p ctx workload = Workload.collector p ctx
collector p ctx sessions = Sessions.collector ctx
collector p ctx concurrency = Concurrency.collector ctx
collector p ctx io_latency = IoLatency.collector ctx
collector p ctx blocking = Blocking.collector ctx
collector p ctx deadlocks = Deadlocks.collector p ctx
