-- ===== src/Tests/Retry.antt =====
-- A run that is repeated.
use sql_observability.Base.{◌≡◌, refl, false, none, some, List, [], ◌∷◌}
use sql_observability.Py.Errors.{ok}
use sql_observability.Py.Row.{Row, Scalar}
use sql_observability.Py.Datetime.{aware}
use sql_observability.Base.Int.{pos}
use sql_observability.Db.Server.{Server, roll_back}
use sql_observability.Db.Merge.{merge_batch}
use sql_observability.Db.Merge.Twice.{IsKeyed}
use sql_observability.Collector.{Collector, run}
use sql_observability.Tasks.Context.{Context}
use sql_observability.Collector.Stored.{table_of}
use sql_observability.Tasks.Registry.{Task, collector}
use sql_observability.Tasks.Registry.Retry.{collector-retry, daily-retry}
use sql_observability.Tests.Data.{world, fresh, waits, wait_rows, stored_wait, parsers, context}
use sql_observability.Tests.Runs.{transform_wait_rows}

-- What the placeholders stand for.
abbrev batch : List (List Scalar)
batch =
    (Scalar.text "SQL1"
      ∷ Scalar.time (aware 1000)
      ∷ Scalar.text "LCK_M_X"
      ∷ Scalar.int (pos 5)
      ∷ Scalar.int (pos 1)
      ∷ [])
    ∷ []

batch-IsKeyed : IsKeyed (world (some 4)) waits.upsert (
    Scalar.text "SQL1"
    ∷ Scalar.time (aware 1000)
    ∷ Scalar.text "LCK_M_X"
    ∷ Scalar.int (pos 5)
    ∷ Scalar.int (pos 1)
    ∷ [])
unfolding sql_observability.Db.Merge.matches sql_observability.Py.Row.scalar_beq
batch-IsKeyed = refl

-- The commit of the first run fails; its `except` clause commits the row all the same.
abbrev after_first : Server
after_first = roll_back (run (world (some 4)) waits "SQL1" (ok wait_rows) false fresh).1

second_returns : (run (world (some 4)) waits "SQL1" (ok wait_rows) false after_first).0 ≡ ok 1
unfolding run sql_observability.Db.Server.◌>>=◌ sql_observability.Tasks.Waits.transform
    sql_observability.Tasks.Waits.excluded sql_observability.Py.Yaml.yaml_eq
    sql_observability.Tasks.Mapped.stamped sql_observability.Collector.record_run
    sql_observability.Db.Calls.start_run sql_observability.Db.Server.try_except_else
    sql_observability.Collector.persist sql_observability.Db.Merge.execute_merge
    sql_observability.Collector.on_failure sql_observability.Db.Calls.finish_run
    sql_observability.Collector.on_success
second_returns = refl

collector-retry_example :
    table_of
      (world (some 4))
      waits
      (run (world (some 4)) waits "SQL1" (ok wait_rows) false after_first).1.committed
    ≡ merge_batch
        (world (some 4))
        waits.upsert
        batch
        (table_of (world (some 4)) waits fresh.working)
collector-retry_example =
    collector-retry parsers (context none) (context none) Task.waits (world (some 4)) "SQL1"
      (ok wait_rows) (ok wait_rows) (stored_wait ∷ []) batch fresh 1 refl transform_wait_rows
      transform_wait_rows refl (batch-IsKeyed, tt) second_returns

-- A table of the database `sales`, and the same on the next run of the day.
abbrev sizes : Row
sizes =
    ("database_name", Scalar.text "sales")
    ∷ ("schema_name", Scalar.text "dbo")
    ∷ ("table_name", Scalar.text "orders")
    ∷ ("row_count", Scalar.int (pos 10))
    ∷ ("data_kb", Scalar.int (pos 64))
    ∷ ("index_kb", Scalar.int (pos 8))
    ∷ ("unused_kb", Scalar.int (pos 0))
    ∷ []

abbrev later : Context
later = record (context none) { now = aware 2000 }

abbrev storage : Collector
storage = collector parsers (context none) Task.storage

abbrev stored_sizes : Row
stored_sizes = ("source_instance", Scalar.text "SQL1") ∷ ("snapshot_date", Scalar.day 1) ∷ sizes

abbrev size_params : List Scalar
size_params =
    Scalar.text "SQL1"
    ∷ Scalar.day 1
    ∷ Scalar.text "sales"
    ∷ Scalar.text "dbo"
    ∷ Scalar.text "orders"
    ∷ Scalar.int (pos 10)
    ∷ Scalar.int (pos 64)
    ∷ Scalar.int (pos 8)
    ∷ Scalar.int (pos 0)
    ∷ []

sizes_made : storage.transform (sizes ∷ []) ≡ ok (stored_sizes ∷ [])
unfolding sql_observability.Tasks.Storage.transform sql_observability.Tasks.Mapped.stamped
sizes_made = refl

sizes-IsKeyed : IsKeyed (world (some 4)) storage.upsert size_params
unfolding sql_observability.Db.Merge.matches sql_observability.Py.Row.scalar_beq
sizes-IsKeyed = refl

abbrev after_storage : Server
after_storage = roll_back (run (world (some 4)) storage "SQL1" (ok (sizes ∷ [])) false fresh).1

storage_returns :
    (run
      (world (some 4))
      (collector parsers later Task.storage)
      "SQL1"
      (ok (sizes ∷ []))
      false
      after_storage).0
    ≡ ok 1
unfolding run sql_observability.Db.Server.◌>>=◌ sql_observability.Tasks.Storage.transform
    sql_observability.Tasks.Mapped.stamped sql_observability.Collector.record_run
    sql_observability.Db.Calls.start_run sql_observability.Db.Server.try_except_else
    sql_observability.Collector.persist sql_observability.Db.Merge.execute_merge
    sql_observability.Collector.on_failure sql_observability.Db.Calls.finish_run
    sql_observability.Collector.on_success
storage_returns = refl

daily-retry_example :
    table_of
      (world (some 4))
      storage
      (run
        (world (some 4))
        (collector parsers later Task.storage)
        "SQL1"
        (ok (sizes ∷ []))
        false
        after_storage).1.committed
    ≡ merge_batch
        (world (some 4))
        storage.upsert
        (size_params ∷ [])
        (table_of (world (some 4)) storage fresh.working)
daily-retry_example =
    daily-retry parsers (context none) later Task.storage (world (some 4)) (ok (sizes ∷ []))
      (stored_sizes ∷ []) (size_params ∷ []) fresh 1 tt refl refl refl sizes_made refl
      (sizes-IsKeyed, tt) storage_returns
