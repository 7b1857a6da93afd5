-- ===== src/Tasks/QueryPerf.antt =====
-- src/collectors/query_perf.py: its columns, its MERGE and its `transform`, which keeps one row for
-- each query_hash.
pub mod Hashes
use sql_observability.Base.Int.{ℤ, pos}
use sql_observability.Py.Xml.{Parsers}
use sql_observability.Py.Yaml.{Yaml, Fields, get_in, get_or}
use sql_observability.Collector.{Collector}
use sql_observability.Collector.Fetch.{fetch_once}
use sql_observability.Base.{
  ◌≡◌, refl, sym, or-eq-false, All-append, Bool, true, false, some, String, List, [], ◌∷◌, ◌++◌,
  All, any, map, if◌then◌else◌, Bool-cases, inl, inr, subst, arith, ◌<>◌,
}
use sql_observability.Py.Errors.{ok_inj, Result, ok, ◌>>=◌, >>=-eq-ok, err, type_error}
use sql_observability.Py.Row.{
  Row, Scalar, time, keys, item, find, scalar_beq, scalar_beq_refl, scalar_beq-sym_false,
}
use sql_observability.Db.Server.{Merge, column}
use sql_observability.Tasks.Context.{Context}
use sql_observability.Tasks.Mapped.{stamped-find, stamped, keys-stamped}

-- `_AGGREGATION`
unfoldable pub aggregation : String
aggregation =
    "\n" <> "SELECT\n" <> "    qs.query_hash,\n"
    <> "    SUM(qs.execution_count)                                          AS exec_count,\n"
    <> "    SUM(qs.total_worker_time)  / 1000.0                             AS total_cpu_ms,\n"
    <> "    SUM(qs.total_worker_time)  / NULLIF(SUM(qs.execution_count),0) / 1000.0 AS avg_cpu_ms,\n"
    <> "    SUM(qs.total_elapsed_time) / NULLIF(SUM(qs.execution_count),0) / 1000.0 AS avg_duration_ms,\n"
    <> "    SUM(qs.total_logical_reads)/ NULLIF(SUM(qs.execution_count),0)          AS avg_logical_reads,\n"
    <> "    MIN(SUBSTRING(st.text, (qs.statement_start_offset/2)+1,\n"
    <> "        ((CASE qs.statement_end_offset WHEN -1 THEN DATALENGTH(st.text)\n"
    <> "          ELSE qs.statement_end_offset END - qs.statement_start_offset)/2)+1)) AS query_sql_text\n"
    <> "FROM sys.dm_exec_query_stats qs\n" <> "CROSS APPLY sys.dm_exec_sql_text(qs.sql_handle) st\n"
    <> "GROUP BY qs.query_hash\n"

-- `int(v)`
abbrev pub to_integer : Parsers → Yaml → Result ℤ
to_integer p (Yaml.int n) = ok n
to_integer p (Yaml.bool b) = ok (if b then pos 1 else pos 0)
to_integer p (Yaml.text s) = p.to_int s
to_integer p _ = err type_error

-- `SELECT TOP (n) * FROM (aggregation) alias ORDER BY column DESC`
abbrev pub top : String → String → String → String
top n alias column' =
    "SELECT TOP (" <> n <> ") * FROM (" <> aggregation <> ") " <> alias <> " ORDER BY " <> column'
    <> " DESC"

-- `source_query`
unfoldable pub source_query : Parsers → Fields → Result String
source_query p config = do
  v ← get_in (get_or config "query_perf" (Yaml.dict Fields.end)) "top_n" (Yaml.int (pos 50))
  n ← to_integer p v
  let top_n = p.format_int n
  ok (
      top top_n "cpu_agg" "total_cpu_ms"
      <> "\nUNION\n"
      <> top top_n "reads_agg" "avg_logical_reads"
      <> ";")

-- the columns that the query selects
abbrev pub selected : List String
selected =
    "query_hash" ∷ "exec_count" ∷ "total_cpu_ms" ∷ "avg_cpu_ms" ∷ "avg_duration_ms"
    ∷ "avg_logical_reads" ∷ "query_sql_text" ∷ []

abbrev pub columns : List String
columns =
    "source_instance" ∷ "snapshot_time_utc" ∷ "query_hash" ∷ "exec_count" ∷ "avg_cpu_ms"
    ∷ "avg_duration_ms" ∷ "avg_logical_reads" ∷ "total_cpu_ms" ∷ "query_sql_text" ∷ []

abbrev pub upsert : Merge
upsert = record {
  target = "dbo.fact_query_perf";
  source =
      "source_instance" ∷ "snapshot_time_utc" ∷ "query_hash" ∷ "exec_count" ∷ "avg_cpu_ms"
      ∷ "avg_duration_ms" ∷ "avg_logical_reads" ∷ "total_cpu_ms" ∷ "query_sql_text" ∷ [];
  on = column "source_instance" ∷ column "snapshot_time_utc" ∷ column "query_hash" ∷ [];
  update =
      "exec_count" ∷ "avg_cpu_ms" ∷ "avg_duration_ms" ∷ "avg_logical_reads" ∷ "total_cpu_ms"
      ∷ "query_sql_text" ∷ [];
  insert =
      "source_instance" ∷ "snapshot_time_utc" ∷ "query_hash" ∷ "exec_count" ∷ "avg_cpu_ms"
      ∷ "avg_duration_ms" ∷ "avg_logical_reads" ∷ "total_cpu_ms" ∷ "query_sql_text" ∷ [];
}

-- the values that a row takes from the source row
abbrev pub fields : List (String × String)
fields =
    ("query_hash", "query_hash")
    ∷ ("exec_count", "exec_count")
    ∷ ("avg_cpu_ms", "avg_cpu_ms")
    ∷ ("avg_duration_ms", "avg_duration_ms")
    ∷ ("avg_logical_reads", "avg_logical_reads")
    ∷ ("total_cpu_ms", "total_cpu_ms")
    ∷ ("query_sql_text", "query_sql_text")
    ∷ []

-- `query_hash in seen`, of a dict in insertion order
abbrev pub known : Scalar → List (Scalar × Row) → Bool
known query_hash seen = any (λ e. scalar_beq e.0 query_hash) seen

-- The loop: `seen` and the rows that are left.
unfoldable pub gather : Context → List (Scalar × Row) → List Row → Result (List (Scalar × Row))
gather ctx seen [] = ok seen
gather ctx seen (r ∷ rows) = do
  query_hash ← item r "query_hash"
  seen' ←
      (if known query_hash seen then ok seen else (do
        row ← stamped ctx.source_instance "snapshot_time_utc" (time ctx.now) fields r
        ok (seen ++ (query_hash, row) ∷ [])))
  gather ctx seen' rows

unfoldable pub transform : Context → List Row → Result (List Row)
unfolding gather
transform ctx rows = do seen ← gather ctx [] rows; ok (map (λ e. e.1) seen)

-- The class.
abbrev pub collector : Parsers → Context → Collector
collector p ctx = record {
  task_name = "query_perf";
  fetch_rows = fetch_once (source_query p ctx.config);
  transform = transform ctx;
  columns = columns;
  upsert = upsert;
}
