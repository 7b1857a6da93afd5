-- ===== src/Collector/Journal.antt =====
-- `dbo.collection_run` as a log: what other connections see of it, and the machine that writes it.
use sql_observability.Base.{
  ℕ, suc, ◌≤◌, ◌≡◌, ap₂, ◌∙◌, refl, String, Option, none, some, List, [], ◌∷◌, ◌++◌, map,
  nat_beq_refl,
}
use mathlib.Core.List.{map-append}
use sql_observability.Py.Errors.{Result, ok, err}
use sql_observability.Py.Yaml.{Yaml, text}
use sql_observability.Db.Server.{Run, Store}
use sql_observability.Db.Calls.{end_run}
use sql_observability.Collector.Log.{IsAscending}
use sql_observability.Collector.Outcome.{running_entry, success_entry, end_run-below}

pub record Journal : Type 0 where
  pub entries : List Run
  pub next_id : ℕ

abbrev pub journal : Store → Journal
journal store = record { entries = store.runs; next_id = store.next_id }

-- A new entry under the next id.
abbrev pub append : (ℕ → Run) → Journal → Journal
append entry j = record { entries = j.entries ++ entry j.next_id ∷ []; next_id = suc j.next_id }

-- The entry of a run that ended as failed.
abbrev pub failed_entry : ℕ → String → String → ℕ → ℕ → String → Run
failed_entry run_id source_instance task started ended message = record {
  run_id = run_id;
  source_instance = source_instance;
  task = task;
  started_at = started;
  ended_at = some ended;
  status = "failed";
  row_count = none;
  error_message = some message;
}

-- The number that a run returns; none where it raises.
abbrev pub returned : Result ℕ → Option ℕ
returned (ok n) = some n
returned (err e) = none

-- One run of a task on an instance, by what it returns: a run that returns n has appended a
-- success with n rows; one that raises has appended nothing, an entry left as running, or a
-- failure.
pub data LogStep (task : String) : Yaml → Option ℕ → Journal → Journal → Type 0 where
  skipped : (v : Yaml) (j : Journal) → LogStep task v none j j
  begun :
      (source_instance : String) (started : ℕ) (j : Journal)
      → LogStep task
          (text source_instance)
          none
          j
          (append (λ run_id. running_entry run_id source_instance task started) j)
  failed :
      (source_instance : String) (started ended : ℕ) (message : String) (j : Journal)
      → LogStep task
          (text source_instance)
          none
          j
          (append (λ run_id. failed_entry run_id source_instance task started ended message) j)
  succeeded :
      (source_instance : String) (started ended n : ℕ) (j : Journal)
      → LogStep task
          (text source_instance)
          (some n)
          j
          (append (λ run_id. success_entry run_id source_instance task started ended n) j)

-- A run on each instance in turn. The ids that a run leaves unused may be lost when its connection is
-- closed, so that the next run begins with a higher one.
pub data LogSteps (task : String) : List Yaml → List (Option ℕ) → Journal → Journal → Type 0 where
  done : (j : Journal) → LogSteps task [] [] j j
  visit :
      (v : Yaml) (o : Option ℕ) (vs : List Yaml) (os : List (Option ℕ)) (j k l : Journal)
      (next_id : ℕ)
      → LogStep task v o j k
      → k.next_id ≤ next_id
      → LogSteps task vs os (record k { next_id = next_id }) l
      → LogSteps task (v ∷ vs) (o ∷ os) j l

-- The UPDATE of the last entry changes that entry alone.
pub end_run-append :
    (source_instance task : String) (started : ℕ) (status : String) (n : Option ℕ)
    (m : Option String) (now : ℕ) (j : Journal)
    → IsAscending 0 j.entries j.next_id
    → map
        (end_run j.next_id status n m now)
        (append (λ run_id. running_entry run_id source_instance task started) j).entries
      ≡ j.entries
        ++ record (running_entry j.next_id source_instance task started) {
          ended_at = some now;
          status = status;
          row_count = n;
          error_message = m;
        }
          ∷ []
end_run-append source_instance task started status n m now j log =
    map-append (end_run j.next_id status n m now) j.entries
      (running_entry j.next_id source_instance task started ∷ [])
    ∙ ap₂ (λ (xs ys : List Run). xs ++ ys) (end_run-below j.next_id status n m now 0 j.entries log)
        (rw (nat_beq_refl j.next_id) refl)
