-- ===== src/Tasks/Registry/Returns.antt =====
-- The transforms on the rows that their queries give: none of them raises.
pub mod Rows
pub mod Events
pub mod Reports
use sql_observability.Base.{
  ◌≡◌, refl, sym, ap, subst, ℕ, Bool, true, false, Option, none, some, String, List, [], ◌∷◌, ◌++◌,
  All, All-weaken, all, all-contains, all-all-contains, contains, map, Bool-cases, inl, inr, arith,
  if◌then◌else◌, ltb,
}
use sql_observability.Base.Int.{ℤ, pos, ◌-ℤ◌, max_ℤ}
use sql_observability.Py.Errors.{Result, ok, err, type_error, ◌>>=◌, traverse, >>=-eq-ok}
use sql_observability.Py.Datetime.{Datetime, aware, naive, after, earliest}
use sql_observability.Py.Yaml.{Yaml, Items, get_or}
use sql_observability.Py.Xml.{Parsers}
use sql_observability.Py.Row.{Row, Scalar, time, day, keys, item, item-keys, as_int}
use sql_observability.Collector.{Collector}
use sql_observability.Tasks.Context.{Context, today}
use sql_observability.Tasks.Mapped.{stamped, sources, stamped-returns, traverse-returns}
use sql_observability.Tasks.Grouping.{Attribution}
use sql_observability.Tasks.Registry.{Task, collector}
use sql_observability.Tasks.Blocking
use sql_observability.Tasks.Concurrency
use sql_observability.Tasks.Cpu
use sql_observability.Tasks.Deadlocks
use sql_observability.Tasks.Health
use sql_observability.Tasks.IndexOps
use sql_observability.Tasks.IoLatency
use sql_observability.Tasks.QueryPerf
use sql_observability.Tasks.Sessions
use sql_observability.Tasks.Storage
use sql_observability.Tasks.TableAccess
use sql_observability.Tasks.Waits
use sql_observability.Tasks.Workload
use sql_observability.Tasks.Registry.Task.{
  cpu, waits, query_perf, storage, index_ops, table_access, health, workload, sessions, concurrency,
  io_latency, blocking, deadlocks,
}
use sql_observability.Tasks.Registry.Returns.Rows.{
  HasColumns, mapped-returns, IsLoad, sample-returns, select-returns, gather-returns, IsRequest,
  read-returns,
}
use sql_observability.Tasks.Registry.Returns.Events.{IsComparable, IsEvent, workload-returns}
use sql_observability.Tasks.Registry.Returns.Reports.{IsBuffer, deadlocks-returns}

-- What a transform asks of the configuration and of the watermark.
abbrev pub IsReady : Context → Task → Type 0
IsReady ctx waits =
    (exclusions : List Yaml) × (Waits.set_of
        (get_or ctx.config "wait_type_exclusions" (Yaml.list Items.nil))
      ≡ ok exclusions)
IsReady ctx workload = IsComparable ctx.watermark
IsReady ctx deadlocks = IsComparable ctx.watermark
IsReady ctx _ = Unit

-- A row of the task's query; the per-database fetch adds the name of the database.
abbrev pub IsSourceRow : Parsers → Task → Row → Type 0
IsSourceRow p cpu = IsLoad
IsSourceRow p waits = HasColumns Waits.selected
IsSourceRow p query_perf = HasColumns QueryPerf.selected
IsSourceRow p storage = HasColumns ("database_name" ∷ Storage.selected)
IsSourceRow p index_ops = HasColumns ("database_name" ∷ IndexOps.selected)
IsSourceRow p table_access = HasColumns ("database_name" ∷ TableAccess.selected)
IsSourceRow p health = HasColumns Health.selected
IsSourceRow p workload = IsEvent p
IsSourceRow p sessions = IsRequest
IsSourceRow p concurrency = HasColumns Concurrency.selected
IsSourceRow p io_latency = HasColumns IoLatency.selected
IsSourceRow p blocking = HasColumns Blocking.selected
IsSourceRow p deadlocks = IsBuffer p

-- For each of the thirteen tasks, the transform returns rows and raises nothing, if the
-- configuration and the watermark are ready for it and each source row is as follows: it has the
-- columns that the query selects; the shares of cpu are integers, and the counts of sessions are
-- integers or NULL; and the XML of workload and deadlocks parses to a tree in which what the
-- transform reads is there, numbers are absent, empty or numerals, and times have an offset.
pub transform-returns :
    (p : Parsers) (ctx : Context) (t : Task) (rows : List Row)
    → IsReady ctx t
    → All (IsSourceRow p t) rows
    → (out : List Row) × ((collector p ctx t).transform rows ≡ ok out)
unfolding Cpu.transform Waits.transform QueryPerf.transform Storage.transform IndexOps.transform
    TableAccess.transform Health.transform Sessions.transform Concurrency.transform
    IoLatency.transform Blocking.transform
transform-returns p ctx cpu rows ready h =
    traverse-returns (Cpu.sample ctx) rows (All-weaken IsLoad _ rows (sample-returns ctx) h)
transform-returns p ctx waits rows (exclusions, e) h =
    let (out, e2) = select-returns ctx exclusions rows h in (out, rw e e2)
transform-returns p ctx query_perf rows ready h =
    let (seen, e) = gather-returns ctx [] rows h in (map (λ e. e.1) seen, rw e refl)
transform-returns p ctx workload rows ready h = workload-returns p ctx rows ready h
transform-returns p ctx sessions rows ready h =
    let (events, e) =
      traverse-returns Sessions.read rows (All-weaken IsRequest _ rows read-returns h) in
    (map (Sessions.row_of ctx) (Sessions.tally events), rw e refl)
transform-returns p ctx deadlocks rows ready h = deadlocks-returns p ctx rows ready h
transform-returns p ctx storage rows ready h =
    mapped-returns ctx.source_instance "snapshot_date" (day (today ctx)) Storage.fields
      ("database_name" ∷ Storage.selected) rows refl h
transform-returns p ctx index_ops rows ready h =
    mapped-returns ctx.source_instance "snapshot_date" (day (today ctx)) IndexOps.fields
      ("database_name" ∷ IndexOps.selected) rows refl h
transform-returns p ctx table_access rows ready h =
    mapped-returns ctx.source_instance "snapshot_date" (day (today ctx)) TableAccess.fields
      ("database_name" ∷ TableAccess.selected) rows refl h
transform-returns p ctx health rows ready h =
    mapped-returns ctx.source_instance "snapshot_date" (day (today ctx)) Health.fields
      Health.selected rows refl h
transform-returns p ctx concurrency rows ready h =
    mapped-returns ctx.source_instance "sample_time_utc" (time ctx.now) Concurrency.fields
      Concurrency.selected rows refl h
transform-returns p ctx io_latency rows ready h =
    mapped-returns ctx.source_instance "snapshot_time_utc" (time ctx.now) IoLatency.fields
      IoLatency.selected rows refl h
transform-returns p ctx blocking rows ready h =
    mapped-returns ctx.source_instance "sample_time_utc" (time ctx.now) Blocking.fields
      Blocking.selected rows refl h
