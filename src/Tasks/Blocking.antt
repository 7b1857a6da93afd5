-- ===== src/Tasks/Blocking.antt =====
-- src/collectors/blocking.py: its columns, its MERGE and its `transform`.
use sql_observability.Collector.{Collector}
use sql_observability.Collector.Fetch.{fetch_once}
use sql_observability.Base.{◌≡◌, String, List, [], ◌∷◌, All, ◌<>◌}
use sql_observability.Py.Errors.{Result, ok, traverse}
use sql_observability.Py.Row.{Row, time, keys}
use sql_observability.Db.Server.{Merge, column}
use sql_observability.Tasks.Context.{Context}
use sql_observability.Tasks.Mapped.{stamped, stamp_rows-keys}

-- `_SOURCE_QUERY`
unfoldable pub source_query : String
source_query =
    "\n" <> "SELECT\n" <> "    r.session_id,\n" <> "    r.blocking_session_id,\n"
    <> "    r.wait_type,\n" <> "    r.wait_time AS wait_time_ms,\n" <> "    r.wait_resource,\n"
    <> "    s.login_name,\n" <> "    s.program_name,\n"
    <> "    DB_NAME(r.database_id) AS database_name\n" <> "FROM sys.dm_exec_requests r\n"
    <> "JOIN sys.dm_exec_sessions s ON s.session_id = r.session_id\n"
    <> "WHERE r.blocking_session_id <> 0;\n"

-- the columns that the query selects
abbrev pub selected : List String
selected =
    "session_id" ∷ "blocking_session_id" ∷ "wait_type" ∷ "wait_time_ms" ∷ "wait_resource"
    ∷ "login_name" ∷ "program_name" ∷ "database_name" ∷ []

abbrev pub columns : List String
columns =
    "source_instance" ∷ "sample_time_utc" ∷ "session_id" ∷ "blocking_session_id" ∷ "wait_type"
    ∷ "wait_time_ms" ∷ "wait_resource" ∷ "login_name" ∷ "program_name" ∷ "database_name" ∷ []

abbrev pub upsert : Merge
upsert = record {
  target = "dbo.fact_blocking_snapshot";
  source =
      "source_instance" ∷ "sample_time_utc" ∷ "session_id" ∷ "blocking_session_id" ∷ "wait_type"
      ∷ "wait_time_ms" ∷ "wait_resource" ∷ "login_name" ∷ "program_name" ∷ "database_name" ∷ [];
  on = column "source_instance" ∷ column "sample_time_utc" ∷ column "session_id" ∷ [];
  update =
      "blocking_session_id" ∷ "wait_type" ∷ "wait_time_ms" ∷ "wait_resource" ∷ "login_name"
      ∷ "program_name" ∷ "database_name" ∷ [];
  insert =
      "source_instance" ∷ "sample_time_utc" ∷ "session_id" ∷ "blocking_session_id" ∷ "wait_type"
      ∷ "wait_time_ms" ∷ "wait_resource" ∷ "login_name" ∷ "program_name" ∷ "database_name" ∷ [];
}

-- the values that a row takes from the source row
abbrev pub fields : List (String × String)
fields =
    ("session_id", "session_id")
    ∷ ("blocking_session_id", "blocking_session_id")
    ∷ ("wait_type", "wait_type")
    ∷ ("wait_time_ms", "wait_time_ms")
    ∷ ("wait_resource", "wait_resource")
    ∷ ("login_name", "login_name")
    ∷ ("program_name", "program_name")
    ∷ ("database_name", "database_name")
    ∷ []

unfoldable pub transform : Context → List Row → Result (List Row)
transform ctx rows =
    traverse (stamped ctx.source_instance "sample_time_utc" (time ctx.now) fields) rows

-- The class.
abbrev pub collector : Context → Collector
collector ctx = record {
  task_name = "blocking";
  fetch_rows = fetch_once (ok source_query);
  transform = transform ctx;
  columns = columns;
  upsert = upsert;
}

pub transform-keys :
    (ctx : Context) (rows out : List Row)
    → transform ctx rows ≡ ok out
    → All (λ r. keys r ≡ columns) out
unfolding transform
transform-keys ctx rows out h =
    stamp_rows-keys ctx.source_instance "sample_time_utc" (time ctx.now) fields rows out h
