-- ===== src/Cli/Arguments.antt =====
-- run.py: `build_parser`, and the program from its command line on. How argparse recognises options
-- in the words of a command line (abbreviations, `--option=value`, `--`) is a parameter.
pub mod Accepted
use sql_observability.Base.{
  ℕ, String, Bool, true, false, Option, none, some, List, [], ◌∷◌, contains, if◌then◌else◌,
}
use sql_observability.Py.Errors.{Result, key_error}
use sql_observability.Py.Yaml.{Yaml}
use sql_observability.Db.Server.{World, Action, pure, throw}
use sql_observability.Tasks.Registry.{task_named}
use sql_observability.Cli.{Outside, main}

-- `sorted(TASK_REGISTRY)`
abbrev pub choices : List String
choices =
    "blocking" ∷ "concurrency" ∷ "cpu" ∷ "deadlocks" ∷ "health" ∷ "index_ops" ∷ "io_latency"
    ∷ "query_perf" ∷ "sessions" ∷ "storage" ∷ "table_access" ∷ "waits" ∷ "workload" ∷ []

-- An option as argparse meets it, with its value; `malformed` is one without its value, or a flag
-- with one.
pub data Met : Type 0 where
  task : String → Met
  config : String → Met
  dry_run : Met
  help : Met
  malformed : Met

-- The options in their order, and whether any word is left that is none.
pub record Words : Type 0 where
  pub options : List Met
  pub is_left : Bool

-- The namespace while it is filled: `--task` has no default.
pub record Namespace : Type 0 where
  pub chosen : Option String
  pub dry_run : Bool
  pub config : String

-- What `parse_args` returns, or the code of the `SystemExit` that it raises.
pub record Args : Type 0 where
  pub task : String
  pub dry_run : Bool
  pub config : String

pub data Parsed : Type 0 where
  exits : ℕ → Parsed
  parsed : Args → Parsed

abbrev pub defaults : Namespace
defaults = record { chosen = none; dry_run = false; config = "config.yaml" }

-- past the last option: a required option that is missing, and words that are left, are errors
abbrev pub finish : Bool → Namespace → Parsed
finish is_left n = elim n.chosen [
  | none ↦ exits 2
  | some t ↦
      if is_left
      then exits 2
      else parsed (record { task = t; dry_run = n.dry_run; config = n.config })
]

-- One option after the other; the last value of an option stays.
unfoldable pub take : Bool → List Met → Namespace → Parsed
take is_left [] n = finish is_left n
take is_left (Met.task t ∷ options) n =
    let rest = take is_left options (record n { chosen = some t }) in
    if contains choices t then rest else exits 2
take is_left (Met.config path ∷ options) n = take is_left options (record n { config = path })
take is_left (Met.dry_run ∷ options) n = take is_left options (record n { dry_run = true })
take is_left (help ∷ options) n = exits 0
take is_left (malformed ∷ options) n = exits 2

-- `build_parser().parse_args(argv)`
unfoldable pub parse_args : (List String → Words) → List String → Parsed
unfolding take
parse_args words argv = let w = words argv in take w.is_left w.options defaults

-- `sys.exit(main())`; `read` is what reading and parsing the file of a path gives.
unfoldable pub program :
    (List String → Words)
    → (String → Option (Result Yaml))
    → World
    → Outside
    → List String
    → Action ℕ
unfolding parse_args main
program words read w o argv = elim (parse_args words argv) [
  | exits code ↦ pure code
  | parsed args ↦ elim (task_named args.task) [
    | none ↦ throw (key_error args.task)
    | some t ↦ main w o (read args.config) t args.dry_run
  ]
]
