-- ===== src/Collector/Log.antt =====
-- `dbo.collection_run` as src/db.py keeps it.
use sql_observability.Base.{
  ℕ, suc, ◌≤◌, ◌≡◌, refl, ◌⊎◌, inl, inr, String, Bool, Option, none, some, List, [], ◌∷◌, ◌++◌, map,
  nat_beq, arith, if◌then◌else◌,
}
use sql_observability.Py.Errors.{Result}
use sql_observability.Py.Row.{Row}
use sql_observability.Db.Server.{World, Run, Store, Server, highest, restore}
use sql_observability.Db.Server.Keeps.{Both}
use sql_observability.Db.Calls.{insert_run, end_run, update_run}
use sql_observability.Collector.{Collector, run}
use sql_observability.Collector.Logging.{IsKept, run-Keeps}

abbrev pub IsRunning : Run → Type 0
IsRunning r =
    (r.status ≡ "running") × (r.ended_at ≡ none) × (r.row_count ≡ none) × (r.error_message ≡ none)

abbrev pub IsSuccess : Run → Type 0
IsSuccess r =
    (r.status ≡ "success")
    × ((t : ℕ) × (r.ended_at ≡ some t))
    × ((n : ℕ) × (r.row_count ≡ some n))
    × (r.error_message ≡ none)

abbrev pub IsFailed : Run → Type 0
IsFailed r =
    (r.status ≡ "failed")
    × ((t : ℕ) × (r.ended_at ≡ some t))
    × (r.row_count ≡ none)
    × ((m : String) × (r.error_message ≡ some m))

abbrev pub IsRun : Run → Type 0
IsRun r = IsRunning r ⊎ (IsSuccess r ⊎ IsFailed r)

-- Every entry is in one of the three states, and the ids ascend strictly from `low` to below
-- `next`.
abbrev pub IsAscending : ℕ → List Run → ℕ → Type 0
IsAscending low [] next = low ≤ next
IsAscending low (r ∷ rs) next = IsRun r × (low ≤ r.run_id) × IsAscending (suc r.run_id) rs next

abbrev pub IsLog : Store → Type 0
IsLog store = IsAscending 0 store.runs store.next_id

IsAscending-raise :
    (low next later : ℕ) (rs : List Run)
    → next ≤ later
    → IsAscending low rs next
    → IsAscending low rs later
IsAscending-raise low next later [] le h = omega (arith, le, h)
IsAscending-raise low next later (r ∷ rs) le h =
    (h.0, h.1, IsAscending-raise (suc r.run_id) next later rs le h.2)

pub highest-le : (m n : ℕ) → m ≤ highest m n
highest-le m n = ground arith

-- A log stays one when a later one is given up for it.
pub IsLog-restore :
    (kept given_up : Store) → IsLog kept → IsLog given_up → IsLog (restore kept given_up)
IsLog-restore kept given_up log other =
    IsAscending-raise 0 kept.next_id (highest kept.next_id given_up.next_id) kept.runs
      (highest-le kept.next_id given_up.next_id) log

IsAscending-append :
    (low next : ℕ) (r : Run) (rs : List Run)
    → IsRun r
    → r.run_id ≡ next
    → IsAscending low rs next
    → IsAscending low (rs ++ r ∷ []) (suc next)
IsAscending-append low next r [] ir e h = (ir, omega arith, omega arith)
IsAscending-append low next r (q ∷ rs) ir e h =
    (h.0, h.1, IsAscending-append (suc q.run_id) next r rs ir e h.2)

run_id-end_run :
    (run_id : ℕ) (status : String) (n : Option ℕ) (m : Option String) (now : ℕ) (r : Run)
    → (end_run run_id status n m now r).run_id ≡ r.run_id
run_id-end_run run_id status n m now r = ground arith

IsAscending-map :
    (f : Run → Run) (low next : ℕ) (rs : List Run)
    → ((r : Run) → (f r).run_id ≡ r.run_id)
    → ((r : Run) → IsRun r → IsRun (f r))
    → IsAscending low rs next
    → IsAscending low (map f rs) next
IsAscending-map f low next [] same keep h = h
IsAscending-map f low next (r ∷ rs) same keep h = (
  keep r h.0,
  rw (same r) h.1,
  rw (same r) (IsAscending-map f (suc r.run_id) next rs same keep h.2),
)

IsRun-if : (b : Bool) (r s : Run) → IsRun r → IsRun s → IsRun (if b then r else s)
IsRun-if b r s h k = ground arith

insert_run-IsLog :
    (source_instance task : String) (now : ℕ) (store : Store)
    → IsLog store
    → IsLog (insert_run source_instance task now store)
insert_run-IsLog source_instance task now store h =
    IsAscending-append 0 store.next_id _ store.runs (inl (refl, refl, refl, refl)) refl h

update_run-IsLog :
    (run_id : ℕ) (status : String) (n : Option ℕ) (m : Option String) (now : ℕ) (store : Store)
    → ((r : Run)
        → IsRun
            (record r { ended_at = some now; status = status; row_count = n; error_message = m }))
    → IsLog store
    → IsLog (update_run run_id status n m now store)
update_run-IsLog run_id status n m now store ended h =
    IsAscending-map (end_run run_id status n m now) 0 store.next_id store.runs
      (run_id-end_run run_id status n m now)
      (λ r ir. IsRun-if (nat_beq r.run_id run_id) _ r (ended r) ir) h

pub IsLog-IsKept : (w : World) (c : Collector) → IsKept w c IsLog
IsLog-IsKept w c = record {
  started = λ source_instance now store h. insert_run-IsLog source_instance c.task_name now store h;
  succeeded = λ run_id n now store h.
      update_run-IsLog run_id "success" (some n) none now store
        (λ r. inr (inl (refl, (now, refl), (n, refl), refl))) h;
  failed = λ run_id now message store h.
      update_run-IsLog run_id "failed" none (some message) now store
        (λ r. inr (inr (refl, (now, refl), refl, (message, refl)))) h;
  merged = λ params now store h. h;
}

-- Whatever calls fail, a run keeps the log well formed, both as other connections see it and inside
-- the transaction: each entry is running, ended as a success with its number of rows or ended as
-- failed with a message, and no two entries have the same id.
pub run-IsLog :
    (w : World) (c : Collector) (source_instance : String) (fetched : Result (List Row))
    (dry_run : Bool) (s : Server)
    → Both IsLog s
    → Both IsLog (run w c source_instance fetched dry_run s).1
run-IsLog w c source_instance fetched dry_run =
    (run-Keeps (IsLog-IsKept w c) source_instance fetched dry_run).at
