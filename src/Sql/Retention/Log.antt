-- ===== src/Sql/Retention/Log.antt =====
-- The purge of `dbo.collection_run` and the log that src/db.py keeps.
use native.Mathlib.Nat.{le_trans}
use sql_observability.Base.{
  ℕ, suc, ◌+◌, ◌*◌, ◌≤◌, ◌≡◌, refl, Bool, not, some, List, [], ◌∷◌, keep, length, ltb, arith,
  Bool-cases, inl, inr,
}
use sql_observability.Db.Server.{Run, Store}
use sql_observability.Collector.Log.{IsAscending, IsLog}
use sql_observability.Sql.Retention.{microseconds_a_day, purge_runs}
use sql_observability.Sql.Retention.Purged.{purge-keep}

IsAscending-weaken :
    (low high next : ℕ) (rs : List Run)
    → low ≤ high
    → IsAscending high rs next
    → IsAscending low rs next
IsAscending-weaken low high next [] le h = le_trans le h
IsAscending-weaken low high next (r ∷ rs) le h = (h.0, le_trans le h.1, h.2)

IsAscending-keep :
    (p : Run → Bool) (low next : ℕ) (rs : List Run)
    → IsAscending low rs next
    → IsAscending low (keep p rs) next
IsAscending-keep p low next [] h = h
IsAscending-keep p low next (r ∷ rs) h = elim (Bool-cases (p r)) [
  | inl stays ↦ rw stays (h.0, h.1, IsAscending-keep p (suc r.run_id) next rs h.2)
  | inr goes ↦ rw goes (
      IsAscending-weaken low (suc r.run_id) next (keep p rs) (omega (arith, h.1))
        (IsAscending-keep p (suc r.run_id) next rs h.2))
]

-- With a clock that does not go back, the purge of the log ends, and leaves the entries, in their
-- order, that began no earlier than 90 days before some time of the clock. A well-formed log stays well
-- formed.
pub purge_runs-IsLog :
    (now : ℕ → ℕ) (store : Store)
    → ((i : ℕ) → now i ≤ now (suc i))
    → IsLog store
    → (last : ℕ) × (left : List Run) × (purge_runs now store.runs ≡ some left)
      × (left
          ≡ keep (λ r. not (ltb (r.started_at + 90 * microseconds_a_day) (now last))) store.runs)
      × IsLog (record store { runs = left })
unfolding purge_runs
purge_runs-IsLog now store forward log =
    let (d, ends) =
      purge-keep (λ i r. ltb (r.started_at + 90 * microseconds_a_day) (now i))
        (λ i r h. ground (arith, h, forward i)) (suc (length store.runs)) 4999 0 store.runs
        (omega arith) in
    (d + 0, _, ends, refl, IsAscending-keep _ 0 store.next_id store.runs log)
