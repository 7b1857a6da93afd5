-- ===== src/Db/Server/State.antt =====
-- Tables and transactions. `dbo.collection_run` and the fact tables are those of
-- sql/repo_schema.sql; a MERGE is the data of the statement text in each collector.
use sql_observability.Base.{ℕ, String, Bool, Option, List}
use sql_observability.Py.Errors.{Error}
use sql_observability.Py.Datetime.{Datetime}
use sql_observability.Py.Row.{Scalar}

-- A row of `dbo.collection_run`.
pub record Run : Type 0 where
  pub run_id : ℕ
  pub source_instance : String
  pub task : String
  pub started_at : ℕ
  pub ended_at : Option ℕ
  pub status : String
  pub row_count : Option ℕ
  pub error_message : Option String

-- A row of a fact table, by its columns.
abbrev pub Fact : Type 0
Fact = String → Scalar

-- One conjunct of a MERGE's ON clause: equal columns, or equal hashes of the joined columns.
pub data Key : Type 0 where
  column : String → Key
  hash_of : List String → Key

-- A MERGE statement: its target, the source columns in the order of their placeholders, its ON
-- clause, what WHEN MATCHED assigns and what WHEN NOT MATCHED inserts.
pub record Merge : Type 0 where
  pub target : String
  pub source : List String
  pub on : List Key
  pub update : List String
  pub insert : List String

-- `next_id` is the counter of the IDENTITY column run_id.
pub record Store : Type 0 where
  pub runs : List Run
  pub next_id : ℕ
  pub facts : String → List Fact

-- `committed` is what another connection sees, `working` the state inside the open transaction.
pub record Server : Type 0 where
  pub committed : Store
  pub working : Store
  pub calls : ℕ

-- What the program does not decide. `failure n` is the exception of the n-th call of the server,
-- `clock n` is SYSUTCDATETIME() at it, `same` is the server's comparison of two values that are
-- not NULL, `digest` is HASHBYTES of the CONCAT, `datetime2` is the Python value of a DATETIME2
-- and `describe` the text of an exception with its traceback.
pub record World : Type 0 where
  pub failure : ℕ → Option Error
  pub clock : ℕ → ℕ
  pub same : Scalar → Scalar → Bool
  pub digest : List Scalar → ℕ
  pub datetime2 : ℕ → Datetime
  pub describe : Error → String
