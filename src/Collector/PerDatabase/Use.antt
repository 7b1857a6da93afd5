-- ===== src/Collector/PerDatabase/Use.antt =====
-- The name of the database in the queries of src/collectors/base.py, `PerDatabaseCollector`.
use Prim.Native.Char.{Char}
use Prim.Native.String.append
use sql_observability.Base.{◌≡◌, refl, sym, ap, ◌∙◌, String, ◌<>◌, List, map}
use sql_observability.Py.Errors.{Result, ok, ◌>>=◌}
use sql_observability.Py.Text.{replace, read_quoted}
use sql_observability.Py.Text.Quoting.{bracket, read_quoted-replace}
use sql_observability.Py.Row.{Row, Scalar, put}
use sql_observability.Collector.PerDatabase.{fetch_database}

abbrev semicolon : Char
semicolon = ";"

closing-append :
    (query : String) → ("];\n" <> query) ≡ String.◌∷◌ bracket (String.◌∷◌ semicolon ("\n" <> query))
closing-append query =
    append.cons bracket ";\n" query ∙ ap (String.◌∷◌ bracket) (append.cons semicolon "\n" query)

-- For a database of any name, the fetch asks one query, which begins with USE and a name in
-- brackets: SQL Server reads from these the name of the database, and after them the source query.
-- Each row of the answer gets the name of the database.
pub fetch_database-read_quoted :
    (execute : String → Result (List Row)) (source_query database_name : String)
    → (body : String) × (fetch_database execute source_query database_name ≡ (
        execute ("USE [" <> body) >>= λ rows.
        ok (map (put "database_name" (Scalar.text database_name)) rows)))
      × (read_quoted 93 body ≡ (database_name, ";\n" <> source_query))
unfolding fetch_database
fetch_database-read_quoted execute source_query database_name = (
  replace 93 "]]" database_name <> ("];\n" <> source_query),
  refl,
  ap (λ x. read_quoted 93 (replace 93 "]]" database_name <> x)) (closing-append source_query)
      ∙ read_quoted-replace bracket database_name semicolon ("\n" <> source_query) refl
      ∙ ap (λ x. (database_name, x)) (sym (append.cons semicolon "\n" source_query)),
)
