-- ===== src/Cli/Arguments/Accepted.antt =====
-- The command lines that run.py accepts, and how the program ends.
use sql_observability.Base.{
  ◌≡◌, refl, ◌⊎◌, inl, inr, ℕ, String, Bool, true, Option, none, some, List, [], ◌∷◌, ◌==◌,
  contains, ap, ◌∙◌, All, subst, eq_iff, arith, Bool-cases,
}
use sql_observability.Py.Errors.{Error, Result, ok, err, Result-cases}
use sql_observability.Py.Yaml.{Yaml}
use sql_observability.Db.Server.{World, Server, pure, ◌>>=◌ as ◌then◌}
use sql_observability.Config.{load_config}
use sql_observability.Tasks.Registry.{Task, task_named}
use sql_observability.Cli.{Outside, main}
use sql_observability.Cli.Exit.{main-exit}
use sql_observability.Cli.Arguments.{
  choices, Met, help, malformed, Words, Namespace, Args, Parsed, exits, parsed, defaults, finish,
  take, parse_args, program,
}

-- The choices that argparse offers are names of the registry.
choices-IsTask : All (λ c. (t : Task) × (task_named c ≡ some t)) choices
unfolding task_named
choices-IsTask = (
  (Task.blocking, refl),
  (
    (Task.concurrency, refl),
    (
      (Task.cpu, refl),
      (
        (Task.deadlocks, refl),
        (
          (Task.health, refl),
          (
            (Task.index_ops, refl),
            (
              (Task.io_latency, refl),
              (
                (Task.query_perf, refl),
                (
                  (Task.sessions, refl),
                  (
                    (Task.storage, refl),
                    ((Task.table_access, refl), ((Task.waits, refl), ((Task.workload, refl), tt))),
                  ),
                ),
              ),
            ),
          ),
        ),
      ),
    ),
  ),
)

All-contains :
    (P : String → Type 0) (xs : List String) (s : String) → All P xs → contains xs s ≡ true → P s
All-contains P [] s h k = absurd (cc)
All-contains P (x ∷ xs) s h k = elim (Bool-cases (x == s)) [
  | inl same ↦ subst P ((eq_iff x s).0 same) h.0
  | inr other ↦ All-contains P xs s h.1 (rw other at k)
]

-- The name of a task, if any was met.
abbrev IsNamed : Option String → Type 0
IsNamed none = Unit
IsNamed (some s) = (t : Task) × (task_named s ≡ some t)

finish-chosen :
    (is_left : Bool) (n : Namespace) (args : Args)
    → finish is_left n ≡ parsed args
    → n.chosen ≡ some args.task
finish-chosen is_left n args h = ground arith

take-IsNamed :
    (is_left : Bool) (options : List Met) (n : Namespace) (args : Args)
    → IsNamed n.chosen
    → take is_left options n ≡ parsed args
    → (t : Task) × (task_named args.task ≡ some t)
unfolding take
take-IsNamed is_left [] n args named h = subst IsNamed (finish-chosen is_left n args h) named
take-IsNamed is_left (Met.task s ∷ options) n args named h =
    elim (Bool-cases (contains choices s)) [
      | inl offered ↦
          take-IsNamed is_left options (record n { chosen = some s }) args
            (All-contains (λ c. (t : Task) × (task_named c ≡ some t)) choices s choices-IsTask
              offered)
            (rw offered at h)
      | inr refused ↦ absurd (cc (rw refused at h))
    ]
take-IsNamed is_left (Met.config path ∷ options) n args named h =
    take-IsNamed is_left options (record n { config = path }) args named h
take-IsNamed is_left (Met.dry_run ∷ options) n args named h =
    take-IsNamed is_left options (record n { dry_run = true }) args named h
take-IsNamed is_left (help ∷ options) n args named h = absurd (cc)
take-IsNamed is_left (malformed ∷ options) n args named h = absurd (cc)

-- A command line that is accepted names a task of the registry.
parse_args-IsNamed :
    (words : List String → Words) (argv : List String) (args : Args)
    → parse_args words argv ≡ parsed args
    → (t : Task) × (task_named args.task ≡ some t)
unfolding parse_args
parse_args-IsNamed words argv args h =
    take-IsNamed (words argv).is_left (words argv).options defaults args tt h

Parsed-cases : (p : Parsed) → ((code : ℕ) × (p ≡ exits code)) ⊎ ((args : Args) × (p ≡ parsed args))
Parsed-cases (exits code) = inl (code, refl)
Parsed-cases (parsed args) = inr (args, refl)

take-exits :
    (is_left : Bool) (options : List Met) (n : Namespace) (code : ℕ)
    → take is_left options n ≡ exits code
    → (code ≡ 0) ⊎ (code ≡ 2)
unfolding take
take-exits is_left [] n code h = ground arith
take-exits is_left (Met.task s ∷ options) n code h = elim (Bool-cases (contains choices s)) [
  | inl offered ↦ take-exits is_left options (record n { chosen = some s }) code (rw offered at h)
  | inr refused ↦ ground (arith, refused)
]
take-exits is_left (Met.config path ∷ options) n code h =
    take-exits is_left options (record n { config = path }) code h
take-exits is_left (Met.dry_run ∷ options) n code h =
    take-exits is_left options (record n { dry_run = true }) code h
take-exits is_left (help ∷ options) n code h = ground arith
take-exits is_left (malformed ∷ options) n code h = ground arith

parse_args-exits :
    (words : List String → Words) (argv : List String) (code : ℕ)
    → parse_args words argv ≡ exits code
    → (code ≡ 0) ⊎ (code ≡ 2)
unfolding parse_args
parse_args-exits words argv code h =
    take-exits (words argv).is_left (words argv).options defaults code h

-- How the program ends: with one of the codes 0, 1 and 2, or with the exception of a configuration
-- that does not load.
abbrev pub IsEnding : (String → Option (Result Yaml)) → Result ℕ → Type 0
IsEnding read r =
    (r ≡ ok 0)
    ⊎ ((r ≡ ok 1)
        ⊎ ((r ≡ ok 2)
            ⊎ ((path : String) × (e : Error) × (load_config (read path) ≡ err e) × (r ≡ err e))))

main-unloaded :
    (w : World) (o : Outside) (file : Option (Result Yaml)) (t : Task) (dry_run : Bool) (s : Server)
    (e : Error)
    → load_config file ≡ err e
    → (main w o file t dry_run s).0 ≡ err e
unfolding main ◌then◌
main-unloaded w o file t dry_run s e failed = rw failed refl

main-IsEnding :
    (read : String → Option (Result Yaml)) (w : World) (o : Outside) (path : String) (t : Task)
    (dry_run : Bool) (s : Server)
    → IsEnding read (main w o (read path) t dry_run s).0
main-IsEnding read w o path t dry_run s = elim (Result-cases (load_config (read path))) [
  | inl (config, loaded) ↦ elim (main-exit w o (read path) t dry_run s config loaded) [
    | inl zero ↦ inl zero
    | inr one ↦ inr (inl one)
  ]
  | inr (e, failed) ↦
      inr (inr (inr (path, e, failed, main-unloaded w o (read path) t dry_run s e failed)))
]

module _ (words : List String → Words) (read : String → Option (Result Yaml)) (w : World)
    (o : Outside) (argv : List String) (s : Server) where
  program-exits :
      (code : ℕ) → parse_args words argv ≡ exits code → (program words read w o argv s).0 ≡ ok code
  unfolding program pure
  program-exits code over = rw (program, over) refl

  program-parsed :
      (args : Args) (t : Task)
      → parse_args words argv ≡ parsed args
      → task_named args.task ≡ some t
      → program words read w o argv s ≡ main w o (read args.config) t args.dry_run s
  unfolding program
  program-parsed args t accepted named = rw (program, accepted, named) refl

-- For every command line, however argparse recognises its options, and whichever calls fail: the
-- program ends with exit code 0, 1 or 2, or with the exception of a configuration that does not
-- load.
pub program-IsEnding :
    (words : List String → Words) (read : String → Option (Result Yaml)) (w : World) (o : Outside)
    (argv : List String) (s : Server)
    → IsEnding read (program words read w o argv s).0
program-IsEnding words read w o argv s = elim (Parsed-cases (parse_args words argv)) [
  | inl (code, over) ↦
      let ends = program-exits words read w o argv s code over in
      elim (parse_args-exits words argv code over) [
        | inl zero ↦ inl (ends ∙ ap ok zero)
        | inr two ↦ inr (inr (inl (ends ∙ ap ok two)))
      ]
  | inr (args, accepted) ↦
      let (t, named) = parse_args-IsNamed words argv args accepted in
      rw (program-parsed words read w o argv s args t accepted named)
        (main-IsEnding read w o args.config t args.dry_run s)
]
