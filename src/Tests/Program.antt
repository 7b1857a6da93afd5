-- ===== src/Tests/Program.antt =====
-- The program from its command line on.
use sql_observability.Base.{String, Option, some, false, List, [], ◌∷◌}
use sql_observability.Py.Errors.{Result, ok}
use sql_observability.Py.Yaml.{Yaml, dict}
use sql_observability.Cli.Arguments.{Met, Words, program}
use sql_observability.Cli.Arguments.Accepted.{IsEnding, program-IsEnding}
use sql_observability.Tests.Data.{world, fresh, outside, config}

abbrev words : List String → Words
words argv = record { options = Met.task "waits" ∷ Met.dry_run ∷ []; is_left = false }

abbrev read : String → Option (Result Yaml)
read path = some (ok (dict config))

program-IsEnding_example :
    IsEnding read
      (program words read (world (some 6)) outside ("--task=waits" ∷ "--dry-run" ∷ []) fresh).0
program-IsEnding_example =
    program-IsEnding words read (world (some 6)) outside ("--task=waits" ∷ "--dry-run" ∷ []) fresh
