-- ===== src/Tasks/Health.antt =====
-- src/collectors/health.py: its columns, its MERGE and its `transform`.
use sql_observability.Collector.{Collector}
use sql_observability.Collector.Fetch.{fetch_once}
use sql_observability.Base.{◌≡◌, String, List, [], ◌∷◌, All, ◌<>◌}
use sql_observability.Py.Errors.{Result, ok, traverse}
use sql_observability.Py.Row.{Row, day, keys}
use sql_observability.Db.Server.{Merge, column}
use sql_observability.Tasks.Context.{Context, today}
use sql_observability.Tasks.Mapped.{stamped, stamp_rows-keys}

-- `_SOURCE_QUERY`
unfoldable pub source_query : String
source_query =
    "\n" <> "SELECT\n" <> "    d.name AS database_name,\n"
    <> "    d.recovery_model_desc AS recovery_model,\n" <> "    d.state_desc AS state_desc,\n"
    <> "    bk.last_full_backup_utc,\n" <> "    bk.last_log_backup_utc,\n"
    <> "    ISNULL(jf.job_failures_24h, 0) AS job_failures_24h\n" <> "FROM sys.databases d\n"
    <> "OUTER APPLY (\n" <> "    SELECT\n"
    <> "        MAX(CASE WHEN b.type = 'D' THEN b.backup_finish_date END) AS last_full_backup_utc,\n"
    <> "        MAX(CASE WHEN b.type = 'L' THEN b.backup_finish_date END) AS last_log_backup_utc\n"
    <> "    FROM msdb.dbo.backupset b\n" <> "    WHERE b.database_name = d.name\n" <> ") bk\n"
    <> "OUTER APPLY (\n" <> "    SELECT COUNT(*) AS job_failures_24h\n"
    <> "    FROM msdb.dbo.sysjobhistory h\n"
    <> "    JOIN msdb.dbo.sysjobs j ON j.job_id = h.job_id\n" <> "    WHERE h.run_status = 0\n"
    <> "      AND msdb.dbo.agent_datetime(h.run_date, h.run_time) >= DATEADD(HOUR, -24, GETDATE())\n"
    <> ") jf\n" <> "WHERE d.database_id > 4;\n"

-- the columns that the query selects
abbrev pub selected : List String
selected =
    "database_name" ∷ "recovery_model" ∷ "state_desc" ∷ "last_full_backup_utc"
    ∷ "last_log_backup_utc" ∷ "job_failures_24h" ∷ []

abbrev pub columns : List String
columns =
    "source_instance" ∷ "snapshot_date" ∷ "database_name" ∷ "last_full_backup_utc"
    ∷ "last_log_backup_utc" ∷ "recovery_model" ∷ "state_desc" ∷ "job_failures_24h" ∷ []

abbrev pub upsert : Merge
upsert = record {
  target = "dbo.fact_health";
  source =
      "source_instance" ∷ "snapshot_date" ∷ "database_name" ∷ "last_full_backup_utc"
      ∷ "last_log_backup_utc" ∷ "recovery_model" ∷ "state_desc" ∷ "job_failures_24h" ∷ [];
  on = column "source_instance" ∷ column "snapshot_date" ∷ column "database_name" ∷ [];
  update =
      "last_full_backup_utc" ∷ "last_log_backup_utc" ∷ "recovery_model" ∷ "state_desc"
      ∷ "job_failures_24h" ∷ [];
  insert =
      "source_instance" ∷ "snapshot_date" ∷ "database_name" ∷ "last_full_backup_utc"
      ∷ "last_log_backup_utc" ∷ "recovery_model" ∷ "state_desc" ∷ "job_failures_24h" ∷ [];
}

-- the values that a row takes from the source row
abbrev pub fields : List (String × String)
fields =
    ("database_name", "database_name")
    ∷ ("last_full_backup_utc", "last_full_backup_utc")
    ∷ ("last_log_backup_utc", "last_log_backup_utc")
    ∷ ("recovery_model", "recovery_model")
    ∷ ("state_desc", "state_desc")
    ∷ ("job_failures_24h", "job_failures_24h")
    ∷ []

unfoldable pub transform : Context → List Row → Result (List Row)
transform ctx rows =
    traverse (stamped ctx.source_instance "snapshot_date" (day (today ctx)) fields) rows

-- The class.
abbrev pub collector : Context → Collector
collector ctx = record {
  task_name = "health";
  fetch_rows = fetch_once (ok source_query);
  transform = transform ctx;
  columns = columns;
  upsert = upsert;
}

pub transform-keys :
    (ctx : Context) (rows out : List Row)
    → transform ctx rows ≡ ok out
    → All (λ r. keys r ≡ columns) out
unfolding transform
transform-keys ctx rows out h =
    stamp_rows-keys ctx.source_instance "snapshot_date" (day (today ctx)) fields rows out h
