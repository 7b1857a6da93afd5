-- ===== src/Tasks/TableAccess.antt =====
-- src/collectors/table_access.py: its columns, its MERGE and its `transform`.
use sql_observability.Collector.PerDatabase.{fetch_rows}
use sql_observability.Collector.{Collector}
use sql_observability.Base.{◌≡◌, String, List, [], ◌∷◌, All, ◌<>◌}
use sql_observability.Py.Errors.{Result, ok, traverse}
use sql_observability.Py.Row.{Row, day, keys}
use sql_observability.Db.Server.{Merge, column}
use sql_observability.Tasks.Context.{Context, today}
use sql_observability.Tasks.Mapped.{stamped, stamp_rows-keys}

-- `_SOURCE_QUERY`
unfoldable pub source_query : String
source_query =
    "\n" <> "SELECT\n" <> "    s.name AS schema_name,\n" <> "    o.name AS table_name,\n"
    <> "    SUM(ius.user_seeks)   AS seeks_cum,\n" <> "    SUM(ius.user_scans)   AS scans_cum,\n"
    <> "    SUM(ius.user_lookups) AS lookups_cum,\n"
    <> "    SUM(ius.user_updates) AS updates_cum,\n"
    <> "    MAX(row_last_read.v)  AS last_user_read_utc,\n"
    <> "    MAX(ius.last_user_update) AS last_user_update_utc\n"
    <> "FROM sys.dm_db_index_usage_stats ius\n"
    <> "JOIN sys.objects o ON o.object_id = ius.object_id\n"
    <> "JOIN sys.schemas s ON s.schema_id = o.schema_id\n" <> "CROSS APPLY (\n"
    <> "    SELECT MAX(v) AS v FROM (VALUES (ius.last_user_seek), (ius.last_user_scan), (ius.last_user_lookup)) AS t(v)\n"
    <> ") row_last_read\n"
    <> "WHERE ius.database_id = DB_ID() AND o.type = 'U' AND o.is_ms_shipped = 0\n"
    <> "GROUP BY s.name, o.name;\n"

-- the columns that the query selects
abbrev pub selected : List String
selected =
    "schema_name" ∷ "table_name" ∷ "seeks_cum" ∷ "scans_cum" ∷ "lookups_cum" ∷ "updates_cum"
    ∷ "last_user_read_utc" ∷ "last_user_update_utc" ∷ []

abbrev pub columns : List String
columns =
    "source_instance" ∷ "snapshot_date" ∷ "database_name" ∷ "schema_name" ∷ "table_name"
    ∷ "seeks_cum" ∷ "scans_cum" ∷ "lookups_cum" ∷ "updates_cum" ∷ "last_user_read_utc"
    ∷ "last_user_update_utc" ∷ []

abbrev pub upsert : Merge
upsert = record {
  target = "dbo.fact_table_usage";
  source =
      "source_instance" ∷ "snapshot_date" ∷ "database_name" ∷ "schema_name" ∷ "table_name"
      ∷ "seeks_cum" ∷ "scans_cum" ∷ "lookups_cum" ∷ "updates_cum" ∷ "last_user_read_utc"
      ∷ "last_user_update_utc" ∷ [];
  on =
      column "source_instance"
      ∷ column "snapshot_date"
      ∷ column "database_name"
      ∷ column "schema_name"
      ∷ column "table_name"
      ∷ [];
  update =
      "seeks_cum" ∷ "scans_cum" ∷ "lookups_cum" ∷ "updates_cum" ∷ "last_user_read_utc"
      ∷ "last_user_update_utc" ∷ [];
  insert =
      "source_instance" ∷ "snapshot_date" ∷ "database_name" ∷ "schema_name" ∷ "table_name"
      ∷ "seeks_cum" ∷ "scans_cum" ∷ "lookups_cum" ∷ "updates_cum" ∷ "last_user_read_utc"
      ∷ "last_user_update_utc" ∷ [];
}

-- the values that a row takes from the source row
abbrev pub fields : List (String × String)
fields =
    ("database_name", "database_name")
    ∷ ("schema_name", "schema_name")
    ∷ ("table_name", "table_name")
    ∷ ("seeks_cum", "seeks_cum")
    ∷ ("scans_cum", "scans_cum")
    ∷ ("lookups_cum", "lookups_cum")
    ∷ ("updates_cum", "updates_cum")
    ∷ ("last_user_read_utc", "last_user_read_utc")
    ∷ ("last_user_update_utc", "last_user_update_utc")
    ∷ []

unfoldable pub transform : Context → List Row → Result (List Row)
transform ctx rows =
    traverse (stamped ctx.source_instance "snapshot_date" (day (today ctx)) fields) rows

-- The class.
abbrev pub collector : Context → Collector
collector ctx = record {
  task_name = "table_access";
  fetch_rows = λ execute. fetch_rows execute ctx.config ctx.source_instance source_query;
  transform = transform ctx;
  columns = columns;
  upsert = upsert;
}

pub transform-keys :
    (ctx : Context) (rows out : List Row)
    → transform ctx rows ≡ ok out
    → All (λ r. keys r ≡ columns) out
unfolding transform
transform-keys ctx rows out h =
    stamp_rows-keys ctx.source_instance "snapshot_date" (day (today ctx)) fields rows out h
