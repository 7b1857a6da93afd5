-- ===== src/Lib.antt =====
-- The collectors of SQL Server fleet observability: run.py runs one task against every monitored
-- instance of config.yaml, reads rows from the instance, shapes them, and merges them into the
-- fact tables of a repository database, where it also logs each run.
--
-- How the parts interact. `main` (run.py) loads the configuration (src/config.py), and for each
-- instance connects (src/db.py), makes the collector of the task (src/collectors) and runs it:
-- `Collector.run` fetches, transforms, and unless the run is dry logs a start, merges the rows,
-- and logs a success or a failure. Workload and deadlocks first read a watermark from the log.
--
-- Which file models which part:
--   Base       shared tests, lists and integers over native numbers
--   Py         what the program uses of Python: exceptions, the values of YAML, dates, rows, texts,
--              element trees
--   Config     src/config.py: load_config, validate_config and its helpers, env_var_prefix
--   Db         src/db.py: Connection has build_connection_string and the credentials, Calls has
--              start_run, finish_run and the watermark query, Server the stores they change, Query
--              has execute, Merge the MERGE statements of src/collectors
--   Collector  src/collectors/base.py: run and _persist; Fetch has fetch_rows, PerDatabase the
--              fetch of PerDatabaseCollector; Journal is the log as a machine with a step for each
--              run, the specification that run and main refine
--   Tasks      src/collectors: one module for each collector with its source query, its columns,
--              its statement and its transform; Grouping is the aggregation that sessions.py and
--              workload.py share, Registry is TASK_REGISTRY of run.py
--   Cli        run.py: _connect and main; Arguments has build_parser and the program from its
--              command line on
--   Sql        sql/retention.sql: Retention has the batched deletes of old rows
--   Tests      runs on concrete data
--
-- State. A server has a committed and a working store; a store has the rows of dbo.collection_run
-- and a list of rows for each fact table. An action takes a server and gives a result or an
-- exception, and the server it leaves behind. Every call of the driver may fail: the `World` says
-- which, and also gives the server's clock, its comparison of values, and the text of an
-- exception. A call that fails changes nothing, what went before it stays in the open transaction,
-- and closing the connection drops what was not committed, but gives back no value of the IDENTITY
-- column run_id. The theorems hold for every world, and so for a failure at any call.
--
-- Loops are structural recursion over lists. Only the `WHILE 1 = 1` of sql/retention.sql has fuel,
-- one more than the rows of the table: each pass but the last deletes a row. Integers are
-- exact, as in Python.
-- Milliseconds that workload.py sums as floats are exact thousandths here.
--
-- Parameters: the YAML parser (an argument of load_config), `str` of a value, `os.environ`, the XML
-- parser and printer, `datetime.fromisoformat`, `int` of a text and the printing of a number
-- (Parsers), the clock, the cursor that a source instance answers to a query, and how argparse
-- recognises options in the words of a command line (abbreviations, `--option=value`, `--`).
--
-- Not modelled: what a source query means on SQL Server (`selected` of each collector is the list of
-- the columns that its text selects), the SQL of views, and of the schema apart from
-- collection_run and the merge keys, what is printed, and the rounding of floats. Concurrent runs
-- against the same repository are not modelled either: between two calls of one run the stores do
-- not change.
pub mod Base
pub mod Py
pub mod Config
pub mod Db
pub mod Collector
pub mod Tasks
pub mod Cli
pub mod Sql
pub mod Tests

-- Results:
