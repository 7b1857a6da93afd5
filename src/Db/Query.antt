-- ===== src/Db/Query.antt =====
-- src/db.py: `execute`, which makes dictionaries of the rows that a cursor gives.
pub mod Rows
use sql_observability.Base.{String, Option, none, some, List, [], ◌∷◌}
use sql_observability.Py.Errors.{Result, ok, err, value_error, ◌>>=◌, traverse}
use sql_observability.Py.Row.{Scalar, Row, put}

-- What a cursor holds after `execute`: no description where the statement gives no result set.
pub record Cursor : Type 0 where
  pub description : Option (List String)
  pub rows : List (List Scalar)

-- What a connection makes of a query.
abbrev pub Source : Type 0
Source = String → Result Cursor

-- `zip(columns, row, strict=True)`
abbrev pub zip_strict : List String → List Scalar → Result (List (String × Scalar))
zip_strict [] [] = ok []
zip_strict [] (v ∷ vs) = err value_error
zip_strict (c ∷ cs) [] = err value_error
zip_strict (c ∷ cs) (v ∷ vs) = do rest ← zip_strict cs vs; ok ((c, v) ∷ rest)

-- `dict(pairs)`: a later pair replaces the value of an earlier one.
abbrev pub dict_onto : Row → List (String × Scalar) → Row
dict_onto r [] = r
dict_onto r ((c, v) ∷ pairs) = dict_onto (put c v r) pairs

unfoldable pub row_of : List String → List Scalar → Result Row
row_of columns values = do pairs ← zip_strict columns values; ok (dict_onto [] pairs)

unfoldable pub execute : Source → String → Result (List Row)
unfolding row_of
execute source query = do
  cursor ← source query
  elim cursor.description [ none ↦ ok [] | some columns ↦ traverse (row_of columns) cursor.rows ]
