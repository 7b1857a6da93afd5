-- ===== src/Tasks/Concurrency.antt =====
-- src/collectors/concurrency.py: its columns, its MERGE and its `transform`.
use sql_observability.Collector.{Collector}
use sql_observability.Collector.Fetch.{fetch_once}
use sql_observability.Base.{◌≡◌, String, List, [], ◌∷◌, All, ◌<>◌}
use sql_observability.Py.Errors.{Result, ok, traverse}
use sql_observability.Py.Row.{Row, time, keys}
use sql_observability.Db.Server.{Merge, column}
use sql_observability.Tasks.Context.{Context}
use sql_observability.Tasks.Mapped.{stamped, stamp_rows-keys}

-- `_SOURCE_QUERY`
unfoldable pub source_query : String
source_query =
    "\n" <> "SELECT\n"
    <> "    (SELECT COUNT(*) FROM sys.dm_exec_sessions WHERE is_user_process = 1)              AS user_sessions,\n"
    <> "    (SELECT COUNT(*) FROM sys.dm_exec_requests WHERE status = 'running')               AS running,\n"
    <> "    (SELECT COUNT(*) FROM sys.dm_exec_requests WHERE status = 'runnable')              AS runnable,\n"
    <> "    (SELECT COUNT(*) FROM sys.dm_exec_requests WHERE status = 'suspended')             AS suspended,\n"
    <> "    (SELECT COUNT(*) FROM sys.dm_exec_requests WHERE blocking_session_id <> 0)         AS blocked,\n"
    <> "    (SELECT COUNT(*) FROM sys.dm_exec_query_memory_grants WHERE grant_time IS NULL)    AS memory_grants_pending,\n"
    <> "    (SELECT ISNULL(MAX(DATEDIFF(SECOND, at.transaction_begin_time, SYSDATETIME())), 0)\n"
    <> "       FROM sys.dm_tran_active_transactions at)                                        AS longest_open_tran_sec;\n"

-- the columns that the query selects
abbrev pub selected : List String
selected =
    "user_sessions" ∷ "running" ∷ "runnable" ∷ "suspended" ∷ "blocked" ∷ "memory_grants_pending"
    ∷ "longest_open_tran_sec" ∷ []

abbrev pub columns : List String
columns =
    "source_instance" ∷ "sample_time_utc" ∷ "user_sessions" ∷ "running" ∷ "runnable" ∷ "suspended"
    ∷ "blocked" ∷ "memory_grants_pending" ∷ "longest_open_tran_sec" ∷ []

abbrev pub upsert : Merge
upsert = record {
  target = "dbo.fact_concurrency";
  source =
      "source_instance" ∷ "sample_time_utc" ∷ "user_sessions" ∷ "running" ∷ "runnable" ∷ "suspended"
      ∷ "blocked" ∷ "memory_grants_pending" ∷ "longest_open_tran_sec" ∷ [];
  on = column "source_instance" ∷ column "sample_time_utc" ∷ [];
  update =
      "user_sessions" ∷ "running" ∷ "runnable" ∷ "suspended" ∷ "blocked" ∷ "memory_grants_pending"
      ∷ "longest_open_tran_sec" ∷ [];
  insert =
      "source_instance" ∷ "sample_time_utc" ∷ "user_sessions" ∷ "running" ∷ "runnable" ∷ "suspended"
      ∷ "blocked" ∷ "memory_grants_pending" ∷ "longest_open_tran_sec" ∷ [];
}

-- the values that a row takes from the source row
abbrev pub fields : List (String × String)
fields =
    ("user_sessions", "user_sessions")
    ∷ ("running", "running")
    ∷ ("runnable", "runnable")
    ∷ ("suspended", "suspended")
    ∷ ("blocked", "blocked")
    ∷ ("memory_grants_pending", "memory_grants_pending")
    ∷ ("longest_open_tran_sec", "longest_open_tran_sec")
    ∷ []

unfoldable pub transform : Context → List Row → Result (List Row)
transform ctx rows =
    traverse (stamped ctx.source_instance "sample_time_utc" (time ctx.now) fields) rows

-- The class.
abbrev pub collector : Context → Collector
collector ctx = record {
  task_name = "concurrency";
  fetch_rows = fetch_once (ok source_query);
  transform = transform ctx;
  columns = columns;
  upsert = upsert;
}

pub transform-keys :
    (ctx : Context) (rows out : List Row)
    → transform ctx rows ≡ ok out
    → All (λ r. keys r ≡ columns) out
unfolding transform
transform-keys ctx rows out h =
    stamp_rows-keys ctx.source_instance "sample_time_utc" (time ctx.now) fields rows out h
