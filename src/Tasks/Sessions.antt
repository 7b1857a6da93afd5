-- ===== src/Tasks/Sessions.antt =====
-- src/collectors/sessions.py: its columns, its MERGE and its `transform`, which counts the active
-- requests of each login, program, host and database.
use sql_observability.Collector.{Collector}
use sql_observability.Collector.Fetch.{fetch_once}
use sql_observability.Base.{
  ◌≡◌, refl, ℕ, ◌+◌, String, none, some, List, [], ◌∷◌, All, map, length, arith, if◌then◌else◌,
  ◌==◌, subst, ◌<>◌,
}
use sql_observability.Base.Int.{ℤ, pos, ◌+ℤ◌}
use sql_observability.Py.Errors.{ok_inj, Result, ok, err, type_error, ◌>>=◌, traverse, >>=-eq-ok}
use sql_observability.Py.Row.{Row, Scalar, null, int, text, time, item, keys, as_int}
use sql_observability.Db.Server.{Merge, column}
use sql_observability.Tasks.Context.{Context}
use sql_observability.Tasks.Mapped.{length-traverse}
use sql_observability.Tasks.Grouping.{
  Attribution, group, total, value, has_key, IsUnrepeated, group-value-none, group-IsUnrepeated,
  sum, sum-group,
}

-- `_SOURCE_QUERY`
unfoldable pub source_query : String
source_query =
    "\n" <> "SELECT\n" <> "    s.login_name,\n" <> "    s.program_name,\n" <> "    s.host_name,\n"
    <> "    DB_NAME(r.database_id) AS database_name,\n" <> "    r.cpu_time,\n"
    <> "    r.logical_reads\n" <> "FROM sys.dm_exec_requests r\n"
    <> "JOIN sys.dm_exec_sessions s ON r.session_id = s.session_id\n"
    <> "WHERE s.is_user_process = 1 AND r.session_id <> @@SPID;\n"

-- the columns that the query selects
abbrev pub selected : List String
selected =
    "login_name" ∷ "program_name" ∷ "host_name" ∷ "database_name" ∷ "cpu_time" ∷ "logical_reads"
    ∷ []

abbrev pub columns : List String
columns =
    "source_instance" ∷ "sample_time_utc" ∷ "login_name" ∷ "program_name" ∷ "host_name"
    ∷ "database_name" ∷ "active_requests" ∷ "cpu_ms_inflight" ∷ "reads_inflight" ∷ []

abbrev pub upsert : Merge
upsert = record {
  target = "dbo.fact_session_sample";
  source =
      "source_instance" ∷ "sample_time_utc" ∷ "login_name" ∷ "program_name" ∷ "host_name"
      ∷ "database_name" ∷ "active_requests" ∷ "cpu_ms_inflight" ∷ "reads_inflight" ∷ [];
  on =
      column "source_instance"
      ∷ column "sample_time_utc"
      ∷ column "login_name"
      ∷ column "program_name"
      ∷ column "host_name"
      ∷ column "database_name"
      ∷ [];
  update = "active_requests" ∷ "cpu_ms_inflight" ∷ "reads_inflight" ∷ [];
  insert =
      "source_instance" ∷ "sample_time_utc" ∷ "login_name" ∷ "program_name" ∷ "host_name"
      ∷ "database_name" ∷ "active_requests" ∷ "cpu_ms_inflight" ∷ "reads_inflight" ∷ [];
}

-- `v or 0`, then an operand of `+=`
abbrev pub or_zero : Scalar → Result ℤ
or_zero null = ok (pos 0)
or_zero (text s) = if s == "" then ok (pos 0) else err type_error
or_zero v = as_int v

-- What the loop reads of a row: the key, `cpu_time` and `logical_reads`.
unfoldable pub read : Row → Result (Attribution × (ℤ × ℤ))
read r = do
  login_name ← item r "login_name"
  program_name ← item r "program_name"
  host_name ← item r "host_name"
  database_name ← item r "database_name"
  cpu_time ← item r "cpu_time"
  cpu ← or_zero cpu_time
  logical_reads ← item r "logical_reads"
  reads ← or_zero logical_reads
  ok (
    record {
      login_name = login_name;
      program_name = program_name;
      host_name = host_name;
      database_name = database_name;
    },
    (cpu, reads),
  )

-- The value of a group.
pub record Sample : Type 0 where
  pub active_requests : ℕ
  pub cpu_ms_inflight : ℤ
  pub reads_inflight : ℤ

abbrev pub no_requests : Sample
no_requests = record { active_requests = 0; cpu_ms_inflight = pos 0; reads_inflight = pos 0 }

abbrev pub count_request : Sample → ℤ × ℤ → Sample
count_request g (cpu, reads) = record {
  active_requests = g.active_requests + 1;
  cpu_ms_inflight = g.cpu_ms_inflight +ℤ cpu;
  reads_inflight = g.reads_inflight +ℤ reads;
}

unfoldable pub tally : List (Attribution × (ℤ × ℤ)) → List (Attribution × Sample)
tally events = group count_request no_requests events []

-- `{"source_instance": ..., **agg}`
abbrev pub row_of : Context → Attribution × Sample → Row
row_of ctx (key, agg) =
    ("source_instance", text ctx.source_instance)
    ∷ ("sample_time_utc", time ctx.now)
    ∷ ("login_name", key.login_name)
    ∷ ("program_name", key.program_name)
    ∷ ("host_name", key.host_name)
    ∷ ("database_name", key.database_name)
    ∷ ("active_requests", int (pos agg.active_requests))
    ∷ ("cpu_ms_inflight", int agg.cpu_ms_inflight)
    ∷ ("reads_inflight", int agg.reads_inflight)
    ∷ []

-- An error of one row ends the transform, so all rows are read before they are grouped.
unfoldable pub transform : Context → List Row → Result (List Row)
unfolding read tally
transform ctx rows = do events ← traverse read rows; ok (map (row_of ctx) (tally events))

-- The class.
abbrev pub collector : Context → Collector
collector ctx = record {
  task_name = "sessions";
  fetch_rows = fetch_once (ok source_query);
  transform = transform ctx;
  columns = columns;
  upsert = upsert;
}

keys-row_of :
    (ctx : Context) (groups : List (Attribution × Sample))
    → All (λ r. keys r ≡ columns) (map (row_of ctx) groups)
keys-row_of ctx [] = tt
keys-row_of ctx (g ∷ groups) = (refl, keys-row_of ctx groups)

pub transform-keys :
    (ctx : Context) (rows out : List Row)
    → transform ctx rows ≡ ok out
    → All (λ r. keys r ≡ columns) out
unfolding transform
transform-keys ctx rows out h =
    let (events, e, h1) = >>=-eq-ok (traverse read rows) _ h in
    subst (All (λ r. keys r ≡ columns)) (ok_inj h1) (keys-row_of ctx (tally events))

tally-total :
    (key : Attribution) (events : List (Attribution × (ℤ × ℤ)))
    → value key (tally events) ≡ (
        if has_key key events
        then some (total count_request no_requests key no_requests events)
        else none)
unfolding tally
tally-total key events = group-value-none count_request no_requests key events [] refl

-- The groups of some events, one for each key that occurs.
abbrev pub IsGrouped : List (Attribution × (ℤ × ℤ)) → List (Attribution × Sample) → Type 0
IsGrouped events groups =
    IsUnrepeated groups
    × ((key : Attribution)
        → value key groups ≡ (
            if has_key key events
            then some (total count_request no_requests key no_requests events)
            else none))
    × (sum count_request no_requests (λ g. g.active_requests) groups ≡ length events)

tally-IsGrouped : (events : List (Attribution × (ℤ × ℤ))) → IsGrouped events (tally events)
unfolding tally
tally-IsGrouped events =
    let counted =
      sum-group count_request no_requests (λ g. g.active_requests) events [] (λ v n. omega arith)
        refl in
    (
      group-IsUnrepeated count_request no_requests events [] tt,
      λ key. tally-total key events,
      omega (arith, counted),
    )

-- Where the transform succeeds, every source row was read, and the rows are those of groups: the
-- keys of the groups differ from each other, the group of a key is the fold of the rows with that
-- key, in their order, there is no group for another key, and the counts of active requests add up
-- to the number of source rows.
pub transform-groups :
    (ctx : Context) (rows out : List Row)
    → transform ctx rows ≡ ok out
    → (events : List (Attribution × (ℤ × ℤ))) × (groups : List (Attribution × Sample)) × (traverse
          read rows
        ≡ ok events)
      × (length events ≡ length rows)
      × (map (row_of ctx) groups ≡ out)
      × IsGrouped events groups
unfolding transform
transform-groups ctx rows out h =
    let (events, e, h1) = >>=-eq-ok (traverse read rows) _ h in
    (events, tally events, e, length-traverse read rows events e, ok_inj h1, tally-IsGrouped events)
