-- ===== src/Tests/Retention.antt =====
-- The purge of old rows.
use sql_observability.Base.{
  ℕ, String, ◌+◌, ◌*◌, ◌≡◌, refl, not, some, none, [], ◌∷◌, All, keep, ltb, arith, if◌then◌else◌,
  ◌==◌, inl, inr,
}
use sql_observability.Py.Datetime.{naive}
use sql_observability.Py.Row.{Scalar}
use sql_observability.Db.Server.{Fact, Store}
use sql_observability.Collector.Log.{IsLog}
use sql_observability.Sql.Retention.{delete_top, purge, retention, microseconds_a_day}
use sql_observability.Sql.Retention.Script.{IsPurged, IsSame, tables, purged, retention-IsPurged}

-- Batches of two: the loop needs three deletes that find a row.
batches : purge 6 2 (λ i r. ltb r 5) 0 (1 ∷ 2 ∷ 9 ∷ 3 ∷ 4 ∷ []) ≡ some (9 ∷ [])
unfolding purge delete_top
batches = refl

out_of_fuel : purge 2 2 (λ i r. ltb r 5) 0 (1 ∷ 2 ∷ 9 ∷ 3 ∷ 4 ∷ []) ≡ none
unfolding purge delete_top
out_of_fuel = refl

abbrev now : ℕ → ℕ
now i = 400 * microseconds_a_day + i

abbrev sampled : ℕ → Fact
sampled d column =
    if column == "sample_time_utc"
    then Scalar.time (naive (d * microseconds_a_day))
    else Scalar.null

abbrev log : Store
log = record {
  runs =
      record {
        run_id = 1;
        source_instance = "SQL1";
        task = "cpu";
        started_at = 0;
        ended_at = some 5;
        status = "success";
        row_count = some 3;
        error_message = none;
      }
      ∷ [];
  next_id = 2;
  facts = λ name. if name == "dbo.fact_cpu" then sampled 1 ∷ sampled 390 ∷ [] else [];
}

abbrev clock : String → ℕ → ℕ
clock name = now

retention-IsPurged_example :
    (after : Store) × (retention clock log ≡ some after)
    × All (IsPurged clock log after) purged
    × IsSame (tables purged) log after
    × ((last : ℕ) × (after.runs
          ≡ keep
              (λ r.
                not
                  (ltb (r.started_at + 90 * microseconds_a_day) (clock "dbo.collection_run" last)))
              log.runs))
    × IsLog after
retention-IsPurged_example =
    retention-IsPurged clock log (λ name i. omega arith)
      (inr (inl (refl, (5, refl), (3, refl), refl)), omega arith, omega arith)
