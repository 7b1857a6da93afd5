-- ===== src/Tasks/Cpu.antt =====
-- src/collectors/cpu.py: its columns, its MERGE and its `transform`.
use sql_observability.Collector.{Collector}
use sql_observability.Collector.Fetch.{fetch_once}
use sql_observability.Base.{◌≡◌, refl, String, some, subst, ap, List, [], ◌∷◌, All, arith, ◌<>◌}
use sql_observability.Base.Int.{ℤ, pos, negsuc, ◌-ℤ◌, ◌+ℤ◌, ◌≤ℤ◌, max_ℤ}
use sql_observability.Py.Errors.{ok_inj, Result, ok, ◌>>=◌, traverse, >>=-eq-ok}
use sql_observability.Py.Row.{Row, Scalar, int, text, item, find, as_int, keys}
use sql_observability.Db.Server.{Merge, column}
use sql_observability.Tasks.Context.{Context}
use sql_observability.Tasks.Mapped.{All-traverse}

-- `_SOURCE_QUERY`
unfoldable pub source_query : String
source_query =
    "\n" <> "DECLARE @now BIGINT = (SELECT ms_ticks FROM sys.dm_os_sys_info);\n" <> "SELECT\n"
    <> "    DATEADD(ms, -1 * (@now - rb.[timestamp]), SYSUTCDATETIME())                                  AS sample_time_utc,\n"
    <> "    r.value('(./Record/SchedulerMonitorEvent/SystemHealth/ProcessUtilization)[1]','tinyint')    AS sql_cpu_pct,\n"
    <> "    r.value('(./Record/SchedulerMonitorEvent/SystemHealth/SystemIdle)[1]','tinyint')            AS idle_pct\n"
    <> "FROM (\n" <> "    SELECT [timestamp], CONVERT(xml, record) AS r\n"
    <> "    FROM sys.dm_os_ring_buffers\n"
    <> "    WHERE ring_buffer_type = N'RING_BUFFER_SCHEDULER_MONITOR'\n"
    <> "      AND record LIKE '%<SystemHealth>%'\n" <> ") rb;\n"

-- the columns that the query selects
abbrev pub selected : List String
selected = "sample_time_utc" ∷ "sql_cpu_pct" ∷ "idle_pct" ∷ []

abbrev pub columns : List String
columns = "source_instance" ∷ "sample_time_utc" ∷ "sql_cpu_pct" ∷ "other_cpu_pct" ∷ "idle_pct" ∷ []

abbrev pub upsert : Merge
upsert = record {
  target = "dbo.fact_cpu";
  source =
      "source_instance" ∷ "sample_time_utc" ∷ "sql_cpu_pct" ∷ "other_cpu_pct" ∷ "idle_pct" ∷ [];
  on = column "source_instance" ∷ column "sample_time_utc" ∷ [];
  update = "sql_cpu_pct" ∷ "other_cpu_pct" ∷ "idle_pct" ∷ [];
  insert =
      "source_instance" ∷ "sample_time_utc" ∷ "sql_cpu_pct" ∷ "other_cpu_pct" ∷ "idle_pct" ∷ [];
}

-- The body of the loop: what it appends to `out`.
unfoldable pub sample : Context → Row → Result Row
sample ctx r = do
  sql_pct ← item r "sql_cpu_pct"
  idle_pct ← item r "idle_pct"
  sql ← as_int sql_pct
  idle ← as_int idle_pct
  sample_time ← item r "sample_time_utc"
  ok (
      ("source_instance", text ctx.source_instance)
      ∷ ("sample_time_utc", sample_time)
      ∷ ("sql_cpu_pct", sql_pct)
      ∷ ("other_cpu_pct", int (max_ℤ (pos 0) (pos 100 -ℤ sql -ℤ idle)))
      ∷ ("idle_pct", idle_pct)
      ∷ [])

unfoldable pub transform : Context → List Row → Result (List Row)
unfolding sample
transform ctx rows = traverse (sample ctx) rows

-- The class.
abbrev pub collector : Context → Collector
collector ctx = record {
  task_name = "cpu";
  fetch_rows = fetch_once (ok source_query);
  transform = transform ctx;
  columns = columns;
  upsert = upsert;
}

-- What a row of fact_cpu holds.
abbrev pub IsSample : Row → Type 0
IsSample row =
    (sql : ℤ) × (other : ℤ) × (idle : ℤ) × (find "sql_cpu_pct" row ≡ some (int sql))
    × (find "other_cpu_pct" row ≡ some (int other))
    × (find "idle_pct" row ≡ some (int idle))
    × (pos 0 ≤ℤ other)
    × ((sql +ℤ idle ≤ℤ pos 100) → sql +ℤ idle +ℤ other ≡ pos 100)
    × ((pos 0 ≤ℤ sql) → (pos 0 ≤ℤ idle) → other ≤ℤ pos 100)

other-bounds :
    (sql idle : ℤ)
    → (pos 0 ≤ℤ max_ℤ (pos 0) (pos 100 -ℤ sql -ℤ idle))
      × ((sql +ℤ idle ≤ℤ pos 100) → sql +ℤ idle +ℤ max_ℤ (pos 0) (pos 100 -ℤ sql -ℤ idle) ≡ pos 100)
      × ((pos 0 ≤ℤ sql) → (pos 0 ≤ℤ idle) → max_ℤ (pos 0) (pos 100 -ℤ sql -ℤ idle) ≤ℤ pos 100)
unfolding ◌+ℤ◌ ◌-ℤ◌ max_ℤ
other-bounds (pos sql) (pos idle) = (ground arith, λ h. ground arith, λ h k. ground arith)
other-bounds (pos sql) (negsuc idle) = (ground arith, λ h. ground arith, λ h k. ground arith)
other-bounds (negsuc sql) (pos idle) = (ground arith, λ h. ground arith, λ h k. ground arith)
other-bounds (negsuc sql) (negsuc idle) = (ground arith, λ h. ground arith, λ h k. ground arith)

as_int-eq : (v : Scalar) (n : ℤ) → as_int v ≡ ok n → v ≡ int n
as_int-eq v n h = ground arith

sample-IsSample :
    (ctx : Context) (r row : Row) → sample ctx r ≡ ok row → (keys row ≡ columns) × IsSample row
unfolding sample
sample-IsSample ctx r row h =
    let (sql_pct, e1, h1) = >>=-eq-ok (item r "sql_cpu_pct") _ h in
    let (idle_pct, e2, h2) = >>=-eq-ok (item r "idle_pct") _ h1 in
    let (sql, e3, h3) = >>=-eq-ok (as_int sql_pct) _ h2 in
    let (idle, e4, h4) = >>=-eq-ok (as_int idle_pct) _ h3 in
    let (at, e5, h5) = >>=-eq-ok (item r "sample_time_utc") _ h4 in
    let bounds = other-bounds sql idle in
    subst (λ x. (keys x ≡ columns) × IsSample x) (ok_inj h5)
      (
        refl,
        (
          sql,
          max_ℤ (pos 0) (pos 100 -ℤ sql -ℤ idle),
          idle,
          ap some (as_int-eq sql_pct sql e3),
          refl,
          ap some (as_int-eq idle_pct idle e4),
          bounds.0,
          bounds.1,
          bounds.2,
        ),
      )

pub transform-keys :
    (ctx : Context) (rows out : List Row)
    → transform ctx rows ≡ ok out
    → All (λ r. keys r ≡ columns) out
unfolding transform
transform-keys ctx rows out h =
    All-traverse (sample ctx) _ rows out (λ r row e. (sample-IsSample ctx r row e).0) h

-- Where the transform succeeds, every row holds integer shares of the processor, the other share
-- is not negative, it completes the two measured shares to 100 where these are at most 100
-- together, and it is at most 100 where neither of these is negative.
pub transform-IsSample :
    (ctx : Context) (rows out : List Row) → transform ctx rows ≡ ok out → All IsSample out
unfolding transform
transform-IsSample ctx rows out h =
    All-traverse (sample ctx) _ rows out (λ r row e. (sample-IsSample ctx r row e).1) h
