-- ===== src/Tasks/Storage.antt =====
-- src/collectors/storage.py: its columns, its MERGE and its `transform`.
use sql_observability.Collector.PerDatabase.{fetch_rows}
use sql_observability.Collector.{Collector}
use sql_observability.Base.{◌≡◌, String, List, [], ◌∷◌, All, ◌<>◌}
use sql_observability.Py.Errors.{Result, ok, traverse}
use sql_observability.Py.Row.{Row, day, keys}
use sql_observability.Db.Server.{Merge, column}
use sql_observability.Tasks.Context.{Context, today}
use sql_observability.Tasks.Mapped.{stamped, stamp_rows-keys}

-- `_SOURCE_QUERY`
unfoldable pub source_query : String
source_query =
    "\n" <> "SELECT\n" <> "    s.name AS schema_name,\n" <> "    t.name AS table_name,\n"
    <> "    SUM(CASE WHEN ps.index_id IN (0, 1) THEN ps.row_count ELSE 0 END) AS row_count,\n"
    <> "    SUM(ps.in_row_data_page_count + ps.lob_used_page_count + ps.row_overflow_used_page_count) * 8 AS data_kb,\n"
    <> "    (SUM(ps.used_page_count)\n"
    <> "     - SUM(ps.in_row_data_page_count + ps.lob_used_page_count + ps.row_overflow_used_page_count)) * 8 AS index_kb,\n"
    <> "    (SUM(ps.reserved_page_count) - SUM(ps.used_page_count)) * 8 AS unused_kb\n"
    <> "FROM sys.dm_db_partition_stats ps\n" <> "JOIN sys.tables t ON t.object_id = ps.object_id\n"
    <> "JOIN sys.schemas s ON s.schema_id = t.schema_id\n" <> "WHERE t.is_ms_shipped = 0\n"
    <> "GROUP BY s.name, t.name;\n"

-- the columns that the query selects
abbrev pub selected : List String
selected = "schema_name" ∷ "table_name" ∷ "row_count" ∷ "data_kb" ∷ "index_kb" ∷ "unused_kb" ∷ []

abbrev pub columns : List String
columns =
    "source_instance" ∷ "snapshot_date" ∷ "database_name" ∷ "schema_name" ∷ "table_name"
    ∷ "row_count" ∷ "data_kb" ∷ "index_kb" ∷ "unused_kb" ∷ []

abbrev pub upsert : Merge
upsert = record {
  target = "dbo.fact_table_storage";
  source =
      "source_instance" ∷ "snapshot_date" ∷ "database_name" ∷ "schema_name" ∷ "table_name"
      ∷ "row_count" ∷ "data_kb" ∷ "index_kb" ∷ "unused_kb" ∷ [];
  on =
      column "source_instance"
      ∷ column "snapshot_date"
      ∷ column "database_name"
      ∷ column "schema_name"
      ∷ column "table_name"
      ∷ [];
  update = "row_count" ∷ "data_kb" ∷ "index_kb" ∷ "unused_kb" ∷ [];
  insert =
      "source_instance" ∷ "snapshot_date" ∷ "database_name" ∷ "schema_name" ∷ "table_name"
      ∷ "row_count" ∷ "data_kb" ∷ "index_kb" ∷ "unused_kb" ∷ [];
}

-- the values that a row takes from the source row
abbrev pub fields : List (String × String)
fields =
    ("database_name", "database_name")
    ∷ ("schema_name", "schema_name")
    ∷ ("table_name", "table_name")
    ∷ ("row_count", "row_count")
    ∷ ("data_kb", "data_kb")
    ∷ ("index_kb", "index_kb")
    ∷ ("unused_kb", "unused_kb")
    ∷ []

unfoldable pub transform : Context → List Row → Result (List Row)
transform ctx rows =
    traverse (stamped ctx.source_instance "snapshot_date" (day (today ctx)) fields) rows

-- The class.
abbrev pub collector : Context → Collector
collector ctx = record {
  task_name = "storage";
  fetch_rows = λ execute. fetch_rows execute ctx.config ctx.source_instance source_query;
  transform = transform ctx;
  columns = columns;
  upsert = upsert;
}

pub transform-keys :
    (ctx : Context) (rows out : List Row)
    → transform ctx rows ≡ ok out
    → All (λ r. keys r ≡ columns) out
unfolding transform
transform-keys ctx rows out h =
    stamp_rows-keys ctx.source_instance "snapshot_date" (day (today ctx)) fields rows out h
