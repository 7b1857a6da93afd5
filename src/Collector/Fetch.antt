-- ===== src/Collector/Fetch.antt =====
-- src/collectors/base.py: `Collector.fetch_rows`, which most collectors inherit.
use sql_observability.Base.{String, List}
use sql_observability.Py.Errors.{Result, ◌>>=◌}
use sql_observability.Py.Row.{Row}

-- The source is asked once; `execute` is what it answers.
unfoldable pub fetch_once : Result String → (String → Result (List Row)) → Result (List Row)
fetch_once source_query execute = do query ← source_query; execute query
