-- ===== src/Tests/Fetches.antt =====
-- The fetch of the per-database collectors.
use sql_observability.Base.{◌≡◌, refl, String, Option, ◌<>◌, List, [], ◌∷◌, map}
use sql_observability.Py.Errors.{Result, ok, ◌>>=◌}
use sql_observability.Py.Text.{read_quoted}
use sql_observability.Py.Yaml.{Yaml, Fields}
use sql_observability.Tasks.Workload.{source_query}
use sql_observability.Tasks.Workload.Glob.{source_query-read_quoted}
use sql_observability.Collector.PerDatabase.Use.{fetch_database-read_quoted}
use sql_observability.Py.Row.{Row, Scalar, put}
use sql_observability.Collector.PerDatabase.{configured_databases, fetch_rows, fetch_database}
use sql_observability.Collector.PerDatabase.Tags.{IsTarget, IsFetched, fetch_rows-IsFetched}
use sql_observability.Tests.Data.{config}

-- A server with one database, which answers every query with its name.
abbrev answer : String → Result (List Row)
answer query = ok ((("name", Scalar.text "sales") ∷ []) ∷ [])

abbrev tagged_rows : List Row
tagged_rows = (("name", Scalar.text "sales") ∷ ("database_name", Scalar.text "sales") ∷ []) ∷ []

discovered : fetch_rows answer config "SQL1" "SELECT 1" ≡ ok tagged_rows
unfolding fetch_rows sql_observability.Py.Yaml.yaml_eq
    sql_observability.Collector.PerDatabase.fetch_database
discovered = refl

fetch_rows-IsFetched_example :
    (configured : Option (List Yaml)) × (names : List String) × (configured_databases config "SQL1"
      ≡ ok configured)
    × IsTarget answer configured names
    × IsFetched answer "SELECT 1" names tagged_rows
fetch_rows-IsFetched_example =
    fetch_rows-IsFetched answer config "SQL1" "SELECT 1" tagged_rows discovered

fetch_database-read_quoted_example :
    (body : String) × (fetch_database answer "SELECT 1" "a]b" ≡ (
      answer ("USE [" <> body) >>= λ rows. ok (map (put "database_name" (Scalar.text "a]b")) rows)))
    × (read_quoted 93 body ≡ ("a]b", ";\n" <> "SELECT 1"))
fetch_database-read_quoted_example = fetch_database-read_quoted answer "SELECT 1" "a]b"

-- A glob that tries to end the literal.
abbrev hostile : Fields
hostile =
    Fields.field "workload"
      (Yaml.dict (Fields.field "xe_file_glob" (Yaml.text "x', NULL); DROP--") Fields.end))
      Fields.end

source_query-read_quoted_example :
    (body : String) × (source_query hostile
      ≡ ok ("SELECT event_data FROM sys.fn_xe_file_target_read_file(N'" <> body))
    × (read_quoted 39 body ≡ ("x', NULL); DROP--", ", NULL, NULL, NULL);"))
source_query-read_quoted_example = source_query-read_quoted hostile "x', NULL); DROP--" refl
