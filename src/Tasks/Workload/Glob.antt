-- ===== src/Tasks/Workload/Glob.antt =====
-- The glob of the configuration in the query of src/collectors/workload.py.
use sql_observability.Base.{◌≡◌, refl, String, ◌<>◌}
use sql_observability.Py.Errors.{ok}
use sql_observability.Py.Text.{replace, read_quoted}
use sql_observability.Py.Text.Quoting.{quote, read_quoted-replace}
use sql_observability.Py.Yaml.{Yaml, Fields, get_in, get_or}
use sql_observability.Tasks.Workload.{source_query}

-- Where the glob is a text, the query calls the function with a literal whose quotes are doubled, so
-- that reading it up to its closing quote gives that text, whatever quotes it has, and goes on after
-- it with the arguments that are meant.
pub source_query-read_quoted :
    (config : Fields) (glob : String)
    → get_in
        (get_or config "workload" (Yaml.dict Fields.end))
        "xe_file_glob"
        (Yaml.text "Observability_Workload*.xel")
      ≡ ok (Yaml.text glob)
    → (body : String) × (source_query config
        ≡ ok ("SELECT event_data FROM sys.fn_xe_file_target_read_file(N'" <> body))
      × (read_quoted 39 body ≡ (glob, ", NULL, NULL, NULL);"))
unfolding source_query
source_query-read_quoted config glob given = (
  replace 39 "''" glob <> "', NULL, NULL, NULL);",
  rw given refl,
  read_quoted-replace quote glob "," " NULL, NULL, NULL);" refl,
)
