-- ===== src/Tasks/Context.antt =====
-- What a transform reads besides the rows: the collector object's fields and the clock.
use sql_observability.Base.{ℕ, String, Option}
use sql_observability.Py.Datetime.{Datetime, date_of}
use sql_observability.Py.Yaml.{Fields}

pub record Context : Type 0 where
  pub source_instance : String
  pub config : Fields
  -- `self._utcnow()`
  pub now : Datetime
  -- `self._watermark`
  pub watermark : Option Datetime

-- The ordinal of `self._today()`: the transforms read the clock once, for the date or the time.
abbrev pub today : Context → ℕ
today ctx = date_of ctx.now
