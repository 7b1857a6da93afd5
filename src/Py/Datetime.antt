-- ===== src/Py/Datetime.antt =====
-- `datetime.datetime`: a moment in microseconds from the beginning of the year 1, with an offset (aware) or without one (naive).
use Prim.Native.Nat.{◌/◌}
use sql_observability.Base.{ℕ, ◌+◌, Bool, List, [], ◌∷◌, ltb, if◌then◌else◌}
use sql_observability.Py.Errors.{Result, ok, err, type_error, ◌>>=◌}

pub data Datetime : Type 0 where
  aware : ℕ → Datetime
  naive : ℕ → Datetime

abbrev pub instant : Datetime → ℕ
instant (aware n) = n
instant (naive n) = n

-- `d.date()`, by its ordinal
abbrev pub date_of : Datetime → ℕ
date_of d = instant d / 86400000000 + 1

-- `a > b`. A comparison of an aware and a naive value raises `TypeError`.
unfoldable pub after : Datetime → Datetime → Result Bool
after (aware a) (aware b) = ok (ltb b a)
after (naive a) (naive b) = ok (ltb b a)
after _ _ = err type_error

-- `min(t, ...)` over a first element and the rest
unfoldable pub earliest : Datetime → List Datetime → Result Datetime
unfolding after
earliest t [] = ok t
earliest t (u ∷ us) = do earlier ← after t u; earliest (if earlier then u else t) us
