-- ===== src/Tasks/IoLatency.antt =====
-- src/collectors/io_latency.py: its columns, its MERGE and its `transform`.
use sql_observability.Collector.{Collector}
use sql_observability.Collector.Fetch.{fetch_once}
use sql_observability.Base.{◌≡◌, String, List, [], ◌∷◌, All, ◌<>◌}
use sql_observability.Py.Errors.{Result, ok, traverse}
use sql_observability.Py.Row.{Row, time, keys}
use sql_observability.Db.Server.{Merge, column}
use sql_observability.Tasks.Context.{Context}
use sql_observability.Tasks.Mapped.{stamped, stamp_rows-keys}

-- `_SOURCE_QUERY`
unfoldable pub source_query : String
source_query =
    "\n" <> "SELECT\n" <> "    DB_NAME(vfs.database_id) AS database_name,\n"
    <> "    mf.name        AS logical_file_name,\n" <> "    mf.type_desc   AS file_type,\n"
    <> "    vfs.num_of_reads         AS reads_cum,\n"
    <> "    vfs.num_of_bytes_read    AS bytes_read_cum,\n"
    <> "    vfs.io_stall_read_ms     AS read_stall_ms_cum,\n"
    <> "    vfs.num_of_writes        AS writes_cum,\n"
    <> "    vfs.num_of_bytes_written AS bytes_written_cum,\n"
    <> "    vfs.io_stall_write_ms    AS write_stall_ms_cum,\n"
    <> "    vfs.size_on_disk_bytes   AS size_on_disk_bytes\n"
    <> "FROM sys.dm_io_virtual_file_stats(NULL, NULL) vfs\n"
    <> "JOIN sys.master_files mf ON mf.database_id = vfs.database_id AND mf.file_id = vfs.file_id\n"
    <> "WHERE vfs.database_id > 4;\n"

-- the columns that the query selects
abbrev pub selected : List String
selected =
    "database_name" ∷ "logical_file_name" ∷ "file_type" ∷ "reads_cum" ∷ "bytes_read_cum"
    ∷ "read_stall_ms_cum" ∷ "writes_cum" ∷ "bytes_written_cum" ∷ "write_stall_ms_cum"
    ∷ "size_on_disk_bytes" ∷ []

abbrev pub columns : List String
columns =
    "source_instance" ∷ "snapshot_time_utc" ∷ "database_name" ∷ "logical_file_name" ∷ "file_type"
    ∷ "reads_cum" ∷ "bytes_read_cum" ∷ "read_stall_ms_cum" ∷ "writes_cum" ∷ "bytes_written_cum"
    ∷ "write_stall_ms_cum" ∷ "size_on_disk_bytes" ∷ []

abbrev pub upsert : Merge
upsert = record {
  target = "dbo.fact_io_latency";
  source =
      "source_instance" ∷ "snapshot_time_utc" ∷ "database_name" ∷ "logical_file_name" ∷ "file_type"
      ∷ "reads_cum" ∷ "bytes_read_cum" ∷ "read_stall_ms_cum" ∷ "writes_cum" ∷ "bytes_written_cum"
      ∷ "write_stall_ms_cum" ∷ "size_on_disk_bytes" ∷ [];
  on =
      column "source_instance"
      ∷ column "snapshot_time_utc"
      ∷ column "database_name"
      ∷ column "logical_file_name"
      ∷ [];
  update =
      "file_type" ∷ "reads_cum" ∷ "bytes_read_cum" ∷ "read_stall_ms_cum" ∷ "writes_cum"
      ∷ "bytes_written_cum" ∷ "write_stall_ms_cum" ∷ "size_on_disk_bytes" ∷ [];
  insert =
      "source_instance" ∷ "snapshot_time_utc" ∷ "database_name" ∷ "logical_file_name" ∷ "file_type"
      ∷ "reads_cum" ∷ "bytes_read_cum" ∷ "read_stall_ms_cum" ∷ "writes_cum" ∷ "bytes_written_cum"
      ∷ "write_stall_ms_cum" ∷ "size_on_disk_bytes" ∷ [];
}

-- the values that a row takes from the source row
abbrev pub fields : List (String × String)
fields =
    ("database_name", "database_name")
    ∷ ("logical_file_name", "logical_file_name")
    ∷ ("file_type", "file_type")
    ∷ ("reads_cum", "reads_cum")
    ∷ ("bytes_read_cum", "bytes_read_cum")
    ∷ ("read_stall_ms_cum", "read_stall_ms_cum")
    ∷ ("writes_cum", "writes_cum")
    ∷ ("bytes_written_cum", "bytes_written_cum")
    ∷ ("write_stall_ms_cum", "write_stall_ms_cum")
    ∷ ("size_on_disk_bytes", "size_on_disk_bytes")
    ∷ []

unfoldable pub transform : Context → List Row → Result (List Row)
transform ctx rows =
    traverse (stamped ctx.source_instance "snapshot_time_utc" (time ctx.now) fields) rows

-- The class.
abbrev pub collector : Context → Collector
collector ctx = record {
  task_name = "io_latency";
  fetch_rows = fetch_once (ok source_query);
  transform = transform ctx;
  columns = columns;
  upsert = upsert;
}

pub transform-keys :
    (ctx : Context) (rows out : List Row)
    → transform ctx rows ≡ ok out
    → All (λ r. keys r ≡ columns) out
unfolding transform
transform-keys ctx rows out h =
    stamp_rows-keys ctx.source_instance "snapshot_time_utc" (time ctx.now) fields rows out h
