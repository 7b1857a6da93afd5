-- ===== src/Sql/Retention.antt =====
-- sql/retention.sql: the batched deletes of old rows.
pub mod Purged
pub mod Log
pub mod Script
use Prim.Native.Nat.{◌/◌}
use sql_observability.Base.{
  ℕ, zero, suc, ◌+◌, ◌-◌, ◌*◌, String, Bool, true, false, Option, none, some, List, [], ◌∷◌, length,
  ltb, nat_beq, if◌then◌else◌,
}
use sql_observability.Py.Datetime.{naive, instant, date_of}
use sql_observability.Py.Row.{Scalar, time, day}
use sql_observability.Db.Server.{Fact, Run, Store}
use sql_observability.Db.Merge.{set_table}

module _ {R : Type 0} where
  -- DELETE TOP (n) ... WHERE old: what stays, and how many rows went. Which of the old rows go first
  -- is up to the server; here it is those at the front.
  unfoldable pub delete_top : ℕ → (R → Bool) → List R → List R × ℕ
  delete_top n old [] = ([], 0)
  delete_top zero old (r ∷ rows) = (r ∷ rows, 0)
  delete_top (suc n) old (r ∷ rows) =
      let gone = delete_top n old rows in
      let kept = delete_top (suc n) old rows in
      if old r then (gone.0, suc gone.1) else (r ∷ kept.0, kept.1)

  -- The loop, up to the delete that finds no row. `old i` is the test of the i-th delete.
  unfoldable pub purge : ℕ → ℕ → (ℕ → R → Bool) → ℕ → List R → Option (List R)
  unfolding delete_top
  purge zero n old i rows = none
  purge (suc fuel) n old i rows =
      let (left, count) = delete_top n (old i) rows in
      let rest = purge fuel n old (suc i) left in if nat_beq count 0 then some left else rest

-- A table with the column that a delete compares, and the days that its rows stay.
pub record Window : Type 0 where
  pub table : String
  pub column : String
  pub days : ℕ

-- The script's deletes of facts before that of the log, in its order.
abbrev pub windows : List Window
windows =
    record { table = "dbo.fact_cpu"; column = "sample_time_utc"; days = 30 }
    ∷ record { table = "dbo.fact_wait_stats"; column = "snapshot_time_utc"; days = 30 }
    ∷ record { table = "dbo.fact_query_perf"; column = "snapshot_time_utc"; days = 120 }
    ∷ record { table = "dbo.fact_workload"; column = "window_start_utc"; days = 120 }
    ∷ record { table = "dbo.fact_session_sample"; column = "sample_time_utc"; days = 14 }
    ∷ record { table = "dbo.fact_concurrency"; column = "sample_time_utc"; days = 7 }
    ∷ record { table = "dbo.fact_table_storage"; column = "snapshot_date"; days = 365 }
    ∷ record { table = "dbo.fact_table_usage"; column = "snapshot_date"; days = 365 }
    ∷ record { table = "dbo.fact_index_ops"; column = "snapshot_date"; days = 365 }
    ∷ record { table = "dbo.fact_health"; column = "snapshot_date"; days = 365 }
    ∷ []

-- Those after it.
abbrev pub later_windows : List Window
later_windows =
    record { table = "dbo.fact_io_latency"; column = "snapshot_time_utc"; days = 30 }
    ∷ record { table = "dbo.fact_blocking_snapshot"; column = "sample_time_utc"; days = 7 }
    ∷ record { table = "dbo.fact_deadlock"; column = "event_time_utc"; days = 180 }
    ∷ []

abbrev pub microseconds_a_day : ℕ
microseconds_a_day = 86400000000

-- `column < DATEADD(DAY, -days, SYSUTCDATETIME())`, of its date for a DATE; not so for NULL
abbrev pub is_before : ℕ → ℕ → Scalar → Bool
is_before days now (time t) = ltb (instant t + days * microseconds_a_day) now
is_before days now (day d) = ltb (d + days) (date_of (naive now))
is_before days now _ = false

abbrev pub is_old : Window → ℕ → Fact → Bool
is_old w now r = is_before w.days now (r w.column)

-- The loop on a table; `now i` is the server's clock at the i-th delete. Each delete but the last
-- removes a row, so the number of rows is enough fuel.
unfoldable pub purge_table : (ℕ → ℕ) → Window → List Fact → Option (List Fact)
unfolding purge
purge_table now w rows = purge (suc (length rows)) 5000 (λ i. is_old w (now i)) 0 rows

-- The script's delete of `dbo.collection_run`.
unfoldable pub purge_runs : (ℕ → ℕ) → List Run → Option (List Run)
unfolding purge
purge_runs now runs =
    purge (suc (length runs)) 5000 (λ i r. ltb (r.started_at + 90 * microseconds_a_day) (now i)) 0
      runs

infixl 5 ◌>>=◌
abbrev ◌>>=◌ {ℓ κ} : {A : Type ℓ} {B : Type κ} → Option A → (A → Option B) → Option B
some a >>= f = f a
none >>= f = none

-- A loop for each window. A loop has a clock of its own, named by its table.
unfoldable pub purge_facts : (String → ℕ → ℕ) → List Window → Store → Option Store
purge_facts clock [] store = some store
purge_facts clock (w ∷ ws) store = do
  left ← purge_table (clock w.table) w (store.facts w.table)
  purge_facts clock ws (set_table w.table (λ _. left) store)

-- The script.
unfoldable pub retention : (String → ℕ → ℕ) → Store → Option Store
retention clock store = do
  store' ← purge_facts clock windows store
  left ← purge_runs (clock "dbo.collection_run") store'.runs
  purge_facts clock later_windows (record store' { runs = left })
