-- ===== src/Tasks/IndexOps.antt =====
-- src/collectors/index_ops.py: its columns, its MERGE and its `transform`.
use sql_observability.Collector.PerDatabase.{fetch_rows}
use sql_observability.Collector.{Collector}
use sql_observability.Base.{◌≡◌, String, List, [], ◌∷◌, All, ◌<>◌}
use sql_observability.Py.Errors.{Result, ok, traverse}
use sql_observability.Py.Row.{Row, day, keys}
use sql_observability.Db.Server.{Merge, column}
use sql_observability.Tasks.Context.{Context, today}
use sql_observability.Tasks.Mapped.{stamped, stamp_rows-keys}

-- `_SOURCE_QUERY`
unfoldable pub source_query : String
source_query =
    "\n" <> "SELECT\n" <> "    'missing' AS kind,\n"
    <> "    OBJECT_SCHEMA_NAME(mid.object_id) + '.' + OBJECT_NAME(mid.object_id) AS object_name,\n"
    <> "    migs.avg_total_user_cost * migs.avg_user_impact * (migs.user_seeks + migs.user_scans) AS impact_score,\n"
    <> "    CAST(NULL AS BIGINT) AS reads,\n" <> "    CAST(NULL AS BIGINT) AS writes,\n"
    <> "    'EQUALITY: ' + ISNULL(mid.equality_columns, '') +\n"
    <> "    ' INEQUALITY: ' + ISNULL(mid.inequality_columns, '') +\n"
    <> "    ' INCLUDED: ' + ISNULL(mid.included_columns, '') AS detail\n"
    <> "FROM sys.dm_db_missing_index_details mid\n"
    <> "JOIN sys.dm_db_missing_index_groups mig ON mig.index_handle = mid.index_handle\n"
    <> "JOIN sys.dm_db_missing_index_group_stats migs ON migs.group_handle = mig.index_group_handle\n"
    <> "WHERE mid.database_id = DB_ID()\n" <> "\n" <> "UNION ALL\n" <> "\n" <> "SELECT\n"
    <> "    'unused' AS kind,\n"
    <> "    OBJECT_SCHEMA_NAME(ius.object_id) + '.' + OBJECT_NAME(ius.object_id) + '.' + i.name AS object_name,\n"
    <> "    CAST(NULL AS DECIMAL(18, 2)) AS impact_score,\n"
    <> "    (ius.user_seeks + ius.user_scans + ius.user_lookups) AS reads,\n"
    <> "    ius.user_updates AS writes,\n" <> "    CAST(NULL AS NVARCHAR(MAX)) AS detail\n"
    <> "FROM sys.dm_db_index_usage_stats ius\n"
    <> "JOIN sys.indexes i ON i.object_id = ius.object_id AND i.index_id = ius.index_id\n"
    <> "WHERE ius.database_id = DB_ID()\n" <> "  AND i.name IS NOT NULL\n"
    <> "  AND (ius.user_seeks + ius.user_scans + ius.user_lookups) = 0\n"
    <> "  AND ius.user_updates > 0;\n"

-- the columns that the query selects
abbrev pub selected : List String
selected = "kind" ∷ "object_name" ∷ "impact_score" ∷ "reads" ∷ "writes" ∷ "detail" ∷ []

abbrev pub columns : List String
columns =
    "source_instance" ∷ "snapshot_date" ∷ "database_name" ∷ "kind" ∷ "object_name" ∷ "impact_score"
    ∷ "reads" ∷ "writes" ∷ "detail" ∷ []

abbrev pub upsert : Merge
upsert = record {
  target = "dbo.fact_index_ops";
  source =
      "source_instance" ∷ "snapshot_date" ∷ "database_name" ∷ "kind" ∷ "object_name"
      ∷ "impact_score" ∷ "reads" ∷ "writes" ∷ "detail" ∷ [];
  on =
      column "source_instance"
      ∷ column "snapshot_date"
      ∷ column "database_name"
      ∷ column "kind"
      ∷ column "object_name"
      ∷ [];
  update = "impact_score" ∷ "reads" ∷ "writes" ∷ "detail" ∷ [];
  insert =
      "source_instance" ∷ "snapshot_date" ∷ "database_name" ∷ "kind" ∷ "object_name"
      ∷ "impact_score" ∷ "reads" ∷ "writes" ∷ "detail" ∷ [];
}

-- the values that a row takes from the source row
abbrev pub fields : List (String × String)
fields =
    ("database_name", "database_name")
    ∷ ("kind", "kind")
    ∷ ("object_name", "object_name")
    ∷ ("impact_score", "impact_score")
    ∷ ("reads", "reads")
    ∷ ("writes", "writes")
    ∷ ("detail", "detail")
    ∷ []

unfoldable pub transform : Context → List Row → Result (List Row)
transform ctx rows =
    traverse (stamped ctx.source_instance "snapshot_date" (day (today ctx)) fields) rows

-- The class.
abbrev pub collector : Context → Collector
collector ctx = record {
  task_name = "index_ops";
  fetch_rows = λ execute. fetch_rows execute ctx.config ctx.source_instance source_query;
  transform = transform ctx;
  columns = columns;
  upsert = upsert;
}

pub transform-keys :
    (ctx : Context) (rows out : List Row)
    → transform ctx rows ≡ ok out
    → All (λ r. keys r ≡ columns) out
unfolding transform
transform-keys ctx rows out h =
    stamp_rows-keys ctx.source_instance "snapshot_date" (day (today ctx)) fields rows out h
