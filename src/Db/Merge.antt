-- ===== src/Db/Merge.antt =====
-- The MERGE statements of the collectors: match on the ON clause, update or insert.
pub mod Batch
pub mod Idempotent
pub mod Twice
pub mod Retry
use sql_observability.Base.{
  ℕ, String, Bool, true, false, Option, none, some, List, [], ◌∷◌, ◌++◌, ◌==◌, all, any, map,
  length, nat_beq, contains, if◌then◌else◌,
}
use sql_observability.Py.Errors.{ok, driver_error}
use sql_observability.Py.Row.{Scalar, null, opaque}
use sql_observability.Db.Server.{
  World, Store, Fact, Key, column, hash_of, Merge, Action, statement, fetch, throw, ◌>>◌,
}

-- The row that the placeholders of a statement make of its parameters.
abbrev pub bind : List String → List Scalar → Fact
bind [] vs c = null
bind (k ∷ ks) [] c = null
bind (k ∷ ks) (v ∷ vs) c = if k == c then v else bind ks vs c

abbrev pub is_null : Scalar → Bool
is_null null = true
is_null _ = false

module _ (w : World) where
  -- `a = b` in SQL: not true if either side is NULL
  unfoldable pub sql_eq : Scalar → Scalar → Bool
  sql_eq a b = if is_null a then false else if is_null b then false else w.same a b

  abbrev pub key_value : Fact → Key → Scalar
  key_value r (column c) = r c
  key_value r (hash_of cs) = opaque (w.digest (map r cs))

  unfoldable pub matches : List Key → Fact → Fact → Bool
  unfolding sql_eq
  matches on target source = all (λ k. sql_eq (key_value target k) (key_value source k)) on

-- UPDATE SET c = src.c, for each listed column
abbrev pub assign : List String → Fact → Fact → Fact
assign columns target source = λ c. if contains columns c then source c else target c

-- INSERT (columns) VALUES (src.columns)
abbrev pub inserted : List String → Fact → Fact
inserted columns source = λ c. if contains columns c then source c else null

-- A statement on one source row.
unfoldable pub merge_row : World → Merge → Fact → List Fact → List Fact
unfolding matches Batch.upsert
merge_row w m source table =
    Batch.upsert (matches w m.on) (assign m.update) (inserted m.insert) source table

-- A statement for each tuple of parameters, in order.
unfoldable pub merge_batch : World → Merge → List (List Scalar) → List Fact → List Fact
unfolding merge_row Batch.upsert_all
merge_batch w m batch table =
    Batch.upsert_all (matches w m.on) (assign m.update) (inserted m.insert)
      (map (bind m.source) batch) table

abbrev pub set_table : String → (List Fact → List Fact) → Store → Store
set_table name f store = record store {
  facts = λ t. if t == name then f (store.facts t) else store.facts t;
}

-- `cursor.execute(sql, params)`: the driver refuses another number of parameters than placeholders.
unfoldable pub execute_merge : World → Merge → List Scalar → Action (Unit {0})
execute_merge w m params =
    if nat_beq (length m.source) (length params)
    then statement w (λ now store. set_table m.target (merge_row w m (bind m.source params)) store)
    else fetch w >> throw (driver_error "parameter markers")
