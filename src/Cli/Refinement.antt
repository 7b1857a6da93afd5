-- ===== src/Cli/Refinement.antt =====
-- run.py writes `dbo.collection_run` as the log machine of Collector.Journal does.
use sql_observability.Base.{
  ◌≡◌, refl, sym, ap, ◌∙◌, subst, ℕ, String, Bool, true, false, Option, none, some, List, [], ◌∷◌,
  All, map, if◌then◌else◌,
}
use sql_observability.Py.Errors.{Error, Result, ok, err, is_ok}
use sql_observability.Py.Yaml.{Yaml, null, dict, text, Fields, elements, subscript, get_or}
use sql_observability.Db.Server.{
  World, Store, Server, Action, roll_back, restore, ◌>>=◌, and_then, throw,
}
use sql_observability.Db.Server.Keeps.{Both, Keeps, Keeps-lift, Keeps-fetch}
use sql_observability.Config.{required_instance_keys, load_config}
use sql_observability.Config.Shape.{IsMappingWith, name_of, names_in}
use sql_observability.Collector.{run}
use sql_observability.Collector.Logging.{run-Keeps}
use sql_observability.Collector.Log.{IsLog, IsLog-IsKept, IsLog-restore, highest-le}
use sql_observability.Collector.Journal.{journal, returned, LogStep, LogSteps, skipped, done, visit}
use sql_observability.Collector.Refinement.{run-LogStep}
use sql_observability.Py.Datetime.{Datetime}
use sql_observability.Py.Xml.{Parsers}
use sql_observability.Tasks.Context.{Context}
use sql_observability.Db.Query.{execute}
use sql_observability.Db.Calls.{get_watermark}
use sql_observability.Py.Errors.{type_error}
use sql_observability.Tasks.Registry.{Task, name, collector}
use sql_observability.Cli.{
  Outside, context, run_collector, run_task, try_instance, each_instance, main,
}
use sql_observability.Cli.Keeps.{get_watermark-Keeps, try_instance-Keeps}
use sql_observability.Cli.Exit.{each_instance-cons, load_config-IsConfig}

-- Begun with no transaction open and `before` committed, `m` takes one step of the log machine.
pub record Steps (task : String) (v : Yaml) (before : Store) (m : Action ℕ) : Type 0 where
  pub at :
      (s : Server)
      → Both (λ store. store ≡ before) s
      → LogStep task v (returned (m s).0) (journal before) (journal (m s).1.committed)

module _ {A : Type 0} {task : String} {v : Yaml} {before : Store} where
  and_then-Steps :
      (r : Result A) (next : A → Action ℕ) (s : Server)
      → ((value : A) → Steps task v before (next value))
      → Both (λ store. store ≡ before) s
      → LogStep task v
          (returned (and_then r next s).0)
          (journal before)
          (journal (and_then r next s).1.committed)
  and_then-Steps (ok value) next s steps kept = (steps value).at s kept
  and_then-Steps (err e) next s steps kept = rw (kept.0) (skipped v (journal before))

  -- What comes before the run of the collector leaves the tables alone.
  Steps-bind :
      (first : Action A) (next : A → Action ℕ)
      → Keeps (λ store. store ≡ before) first
      → ((value : A) → Steps task v before (next value))
      → Steps task v before (first >>= next)
  unfolding ◌>>=◌
  Steps-bind first next kept steps = record {
    at = λ s fresh. and_then-Steps (first s).0 next (first s).1 steps (kept.at s fresh);
  }

module _ {task : String} {v : Yaml} {before : Store} where
  Steps-throw : (e : Error) → Steps task v before (throw e)
  unfolding throw
  Steps-throw e = record { at = λ s kept. rw (kept.0) (skipped v (journal before)) }

  Steps-if :
      (b : Bool) (m n : Action ℕ)
      → Steps task v before m
      → Steps task v before n
      → Steps task v before (if b then m else n)
  Steps-if true m n steps others = steps
  Steps-if false m n steps others = others

collector-task_name : (p : Parsers) (c : Context) (t : Task) → (collector p c t).task_name ≡ name t
collector-task_name p c Task.cpu = refl
collector-task_name p c Task.waits = refl
collector-task_name p c Task.query_perf = refl
collector-task_name p c Task.storage = refl
collector-task_name p c Task.index_ops = refl
collector-task_name p c Task.table_access = refl
collector-task_name p c Task.health = refl
collector-task_name p c Task.workload = refl
collector-task_name p c Task.sessions = refl
collector-task_name p c Task.concurrency = refl
collector-task_name p c Task.io_latency = refl
collector-task_name p c Task.blocking = refl
collector-task_name p c Task.deadlocks = refl

module _ (w : World) (o : Outside) (config : Fields) (t : Task) where
  run_collector-Steps :
      (c : Context) (source_instance : String) (before : Store)
      → IsLog before
      → Steps
          (name t)
          (text source_instance)
          before
          (run_collector w o config t false (collector o.parsers c t) source_instance)
  unfolding run_collector
  run_collector-Steps c source_instance before log = record {
    at = λ s (committed, working).
        let k = collector o.parsers c t in
        let fetched = k.fetch_rows (execute (o.source_of source_instance)) in
        subst
          (λ task.
            LogStep task (text source_instance)
              (returned (run w k source_instance fetched false s).0) (journal before)
              (journal (run w k source_instance fetched false s).1.committed))
          (collector-task_name o.parsers c t)
          (subst
            (λ store.
              LogStep k.task_name (text source_instance)
                (returned (run w k source_instance fetched false s).0) (journal store)
                (journal (run w k source_instance fetched false s).1.committed))
            working
            (run-LogStep w k source_instance fetched s (subst IsLog (sym working) log)
              (committed ∙ sym working)));
  }

  run_task-Steps :
      (source_instance : String) (before : Store)
      → IsLog before
      → Steps (name t) (text source_instance) before (run_task w o config t false source_instance)
  unfolding run_task
  run_task-Steps source_instance before log =
      let direct = λ (watermark : Option Datetime).
        run_collector-Steps (context w o config t false source_instance watermark) source_instance
          before log in
      Steps-if _ _ _
        (Steps-bind (get_watermark w source_instance (name t)) _
          (get_watermark-Keeps w source_instance (name t)) direct)
        (direct none)

  try_instance-Steps :
      (fs : Fields) (v : Yaml) (before : Store)
      → IsLog before
      → Steps (name t) v before (try_instance w o config t false fs v)
  unfolding try_instance
  try_instance-Steps fs (text source_instance) before log =
      let entered = run_task-Steps source_instance before log in
      search (Steps-bind, Keeps-lift, Keeps-fetch, entered) depth 14
  try_instance-Steps fs _ before log = Steps-throw type_error

-- The exit code of a program whose instances' runs ended like this.
abbrev pub exit_code : ℕ → List (Option ℕ) → ℕ
exit_code code [] = code
exit_code code (some n ∷ outcomes) = exit_code code outcomes
exit_code code (none ∷ outcomes) = 1

exit_code-failed : (outcomes : List (Option ℕ)) → exit_code 1 outcomes ≡ 1
exit_code-failed [] = refl
exit_code-failed (some n ∷ outcomes) = exit_code-failed outcomes
exit_code-failed (none ∷ outcomes) = refl

exit_code-cons :
    (code : ℕ) (r : Result ℕ) (outcomes : List (Option ℕ))
    → exit_code (if is_ok r then code else 1) outcomes ≡ exit_code code (returned r ∷ outcomes)
exit_code-cons code (ok n) outcomes = refl
exit_code-cons code (err e) outcomes = exit_code-failed outcomes

-- How a loop over instances that began at `before` ended.
abbrev Reached : String → List Yaml → ℕ → Store → Result ℕ × Server → Type 0
Reached task vs code before p =
    (outcomes : List (Option ℕ)) × (p.0 ≡ ok (exit_code code outcomes))
    × LogSteps task (map name_of vs) outcomes (journal before) (journal p.1.committed)

module _ (w : World) (o : Outside) (config : Fields) (t : Task) where
  each_instance-Reached :
      (vs : List Yaml) (code : ℕ) (before : Store) (s : Server)
      → All (IsMappingWith required_instance_keys) vs
      → IsLog before
      → Both (λ store. store ≡ before) s
      → Reached (name t) vs code before (each_instance w o config t false vs code s)
  unfolding each_instance
  each_instance-Reached [] code before s h log fresh =
      ([], refl, rw (fresh.0) (done (journal before)))
  each_instance-Reached (dict fs ∷ rest) code before s h log fresh =
      let v = get_or fs "name" null in
      let attempt = try_instance w o config t false fs v s in
      let step = (try_instance-Steps w o config t fs v before log).at s fresh in
      let logs =
        (try_instance-Keeps w o t false
            (λ c source_instance fetched.
              run-Keeps (IsLog-IsKept w c) source_instance fetched false)
            config fs v).at
          s (subst IsLog (sym fresh.0) log, subst IsLog (sym fresh.1) log) in
      let closed = restore attempt.1.committed attempt.1.working in
      let log_kept = IsLog-restore attempt.1.committed attempt.1.working logs.0 logs.1 in
      let (outcomes, code_is, steps) =
        each_instance-Reached rest (if is_ok attempt.0 then code else 1) closed
          (roll_back attempt.1) h.1 log_kept (refl, refl) in
      subst (Reached (name t) (dict fs ∷ rest) code before)
        (sym (each_instance-cons w o config t false fs rest code s h.0.0))
        (
          returned attempt.0 ∷ outcomes,
          code_is ∙ ap ok (exit_code-cons code attempt.0 outcomes),
          visit v (returned attempt.0) (map name_of rest) outcomes _ _ _ closed.next_id step
              (highest-le attempt.1.committed.next_id attempt.1.working.next_id) steps,
        )
  each_instance-Reached (v ∷ rest) code before s h log fresh = absurd (h.0)

-- If the configuration loads, and the program, not as a dry run, begins with no transaction open on
-- a well-formed log, then it ends, and for some list of outcomes: the log is reached by one step of
-- the log machine for each monitored instance, in the order of the configuration, with its outcome;
-- the exit code is 0 if every outcome is a number of rows and 1 if a run raised. Between two steps
-- ids may be lost: those of a transaction that is rolled back are not given out again.
pub main-LogSteps :
    (w : World) (o : Outside) (file : Option (Result Yaml)) (t : Task) (s : Server)
    (config : Fields)
    → load_config file ≡ ok config
    → IsLog s.committed
    → s.committed ≡ s.working
    → let (r, s') = main w o file t false s in
      (outcomes : List (Option ℕ)) × (r ≡ ok (exit_code 0 outcomes))
      × LogSteps (name t) (names_in config) outcomes (journal s.committed) (journal s'.committed)
unfolding main ◌>>=◌
main-LogSteps w o file t s config loaded log fresh =
    let c = load_config-IsConfig file config loaded in
    let names : names_in config ≡ map name_of (elements c.instances) =
      rw (names_in, get_or, c.instances_at) refl in
    rw (names, loaded, subscript, c.instances_at)
      (each_instance-Reached w o config t (elements c.instances) 0 s.committed s c.instance_keys log
        (refl, sym fresh))
