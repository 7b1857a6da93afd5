-- ===== src/Tasks/Registry/Retry.antt =====
-- A run of a task that is repeated on the same instance, perhaps after one that raised.
use sql_observability.Base.{◌≡◌, refl, ap, ap₂, ◌∙◌, fun_ext, ℕ, String, false, List, All}
use sql_observability.Py.Errors.{Result, ok, ◌>>=◌, traverse}
use sql_observability.Py.Xml.{Parsers}
use sql_observability.Py.Row.{Row, Scalar, project}
use sql_observability.Db.Server.{World, Server, roll_back}
use sql_observability.Db.Merge.{merge_batch}
use sql_observability.Db.Merge.Twice.{IsKeyed}
use sql_observability.Collector.{run}
use sql_observability.Collector.Outcome.{made}
use sql_observability.Collector.Stored.{table_of}
use sql_observability.Collector.Retry.{run-retry}
use sql_observability.Tasks.Context.{Context, today}
use sql_observability.Tasks.Mapped.{stamped}
use sql_observability.Tasks.Storage
use sql_observability.Tasks.IndexOps
use sql_observability.Tasks.TableAccess
use sql_observability.Tasks.Health
use sql_observability.Tasks.Registry.{Task, collector}
use sql_observability.Tasks.Registry.Statements.{upsert-IsConsistent}

-- Two objects of a collector class store by the same statement and columns.
collector-same :
    (p : Parsers) (first second : Context) (t : Task)
    → ((collector p second t).upsert ≡ (collector p first t).upsert)
      × ((collector p second t).columns ≡ (collector p first t).columns)
collector-same p first second Task.cpu = (refl, refl)
collector-same p first second Task.waits = (refl, refl)
collector-same p first second Task.query_perf = (refl, refl)
collector-same p first second Task.storage = (refl, refl)
collector-same p first second Task.index_ops = (refl, refl)
collector-same p first second Task.table_access = (refl, refl)
collector-same p first second Task.health = (refl, refl)
collector-same p first second Task.workload = (refl, refl)
collector-same p first second Task.sessions = (refl, refl)
collector-same p first second Task.concurrency = (refl, refl)
collector-same p first second Task.io_latency = (refl, refl)
collector-same p first second Task.blocking = (refl, refl)
collector-same p first second Task.deadlocks = (refl, refl)

-- Two runs of a task on an instance, neither of them dry, one after the other, each on its own
-- connection, with no transaction open before the first. The fetches and the transforms of both
-- give the same rows, and every tuple of parameters has a key. Then, however the first run ended and whichever calls failed
-- in it, if the second returns, the fact table is the old one with the batch merged in once: what a
-- run that raised has stored leaves no trace, and nothing is stored twice.
pub collector-retry :
    (p : Parsers) (first second : Context) (t : Task) (w : World) (source_instance : String)
    (fetched fetched_again : Result (List Row)) (rows : List Row) (batch : List (List Scalar))
    (s : Server) (n : ℕ)
    → s.committed ≡ s.working
    → made w (collector p first t) source_instance fetched ≡ ok rows
    → made w (collector p second t) source_instance fetched_again ≡ ok rows
    → traverse (project (collector p first t).columns) rows ≡ ok batch
    → All (IsKeyed w (collector p first t).upsert) batch
    → (run w
        (collector p second t)
        source_instance
        fetched_again
        false
        (roll_back (run w (collector p first t) source_instance fetched false s).1)).0
      ≡ ok n
    → let c = collector p first t in
      let s1 = roll_back (run w c source_instance fetched false s).1 in
      let s2 = (run w (collector p second t) source_instance fetched_again false s1).1 in
      table_of w c s2.committed ≡ merge_batch w c.upsert batch (table_of w c s.working)
collector-retry p first second t w source_instance fetched fetched_again rows batch s n fresh
      is_made is_made_again projected keyed returned =
    run-retry w (collector p first t) (collector p second t) source_instance fetched fetched_again
      rows batch s n (collector-same p first second t) (upsert-IsConsistent p first t) fresh
      (is_made, is_made_again) projected keyed returned

-- The collectors whose rows carry a date, not a time.
abbrev pub IsDaily : Task → Type 0
IsDaily Task.storage = Unit
IsDaily Task.index_ops = Unit
IsDaily Task.table_access = Unit
IsDaily Task.health = Unit
IsDaily _ = ⊥

-- On one instance, a daily transform depends on the clock by its date alone.
daily-same :
    (p : Parsers) (first second : Context) (t : Task) (rows : List Row)
    → IsDaily t
    → second.source_instance ≡ first.source_instance
    → today second ≡ today first
    → (collector p second t).transform rows ≡ (collector p first t).transform rows
unfolding Storage.transform IndexOps.transform TableAccess.transform Health.transform
daily-same p first second Task.storage rows daily here day =
    ap₂ (λ i d. traverse (stamped i "snapshot_date" (Scalar.day d) Storage.fields) rows) here day
daily-same p first second Task.index_ops rows daily here day =
    ap₂ (λ i d. traverse (stamped i "snapshot_date" (Scalar.day d) IndexOps.fields) rows) here day
daily-same p first second Task.table_access rows daily here day =
    ap₂ (λ i d. traverse (stamped i "snapshot_date" (Scalar.day d) TableAccess.fields) rows) here
      day
daily-same p first second Task.health rows daily here day =
    ap₂ (λ i d. traverse (stamped i "snapshot_date" (Scalar.day d) Health.fields) rows) here day
daily-same p first second _ rows daily here day = absurd daily

-- A daily task runs twice on an instance on one day by the clock of the program, neither time dry,
-- each time on its own connection, with no transaction open before the first, and the source gives the same rows
-- both times. Every tuple of parameters has a key. Then, however the first run ended, if the second
-- returns, the fact table is the old one with the batch merged in once.
pub daily-retry :
    (p : Parsers) (first second : Context) (t : Task) (w : World) (fetched : Result (List Row))
    (rows : List Row) (batch : List (List Scalar)) (s : Server) (n : ℕ)
    → IsDaily t
    → second.source_instance ≡ first.source_instance
    → today second ≡ today first
    → s.committed ≡ s.working
    → made w (collector p first t) first.source_instance fetched ≡ ok rows
    → traverse (project (collector p first t).columns) rows ≡ ok batch
    → All (IsKeyed w (collector p first t).upsert) batch
    → (run w
        (collector p second t)
        first.source_instance
        fetched
        false
        (roll_back (run w (collector p first t) first.source_instance fetched false s).1)).0
      ≡ ok n
    → let c = collector p first t in
      let s1 = roll_back (run w c first.source_instance fetched false s).1 in
      let s2 = (run w (collector p second t) first.source_instance fetched false s1).1 in
      table_of w c s2.committed ≡ merge_batch w c.upsert batch (table_of w c s.working)
daily-retry p first second t w fetched rows batch s n daily here day fresh is_made projected keyed =
    collector-retry p first second t w first.source_instance fetched fetched rows batch s n fresh
      is_made
      (ap (λ f. fetched >>= f) (fun_ext λ raw. daily-same p first second t raw daily here day)
        ∙ is_made)
      projected keyed
