-- ===== src/Collector/PerDatabase/Tags.antt =====
-- The rows that src/collectors/base.py, `PerDatabaseCollector.fetch_rows`, gives, by database.
use sql_observability.Base.{
  ◌≡◌, refl, sym, ap, ap₂, ◌∙◌, subst, String, ◌<>◌, false, eq_iff, Option, none, some, List, [],
  ◌∷◌, ◌++◌, map, inl, inr, eq_refl, ◌==◌, Bool-cases,
}
use sql_observability.Py.Errors.{ok_inj, Result, ok, traverse, >>=-eq-ok}
use sql_observability.Py.Text.{replace}
use sql_observability.Py.Yaml.{Yaml, Fields}
use sql_observability.Py.Row.{Row, Scalar, item, put}
use sql_observability.Collector.PerDatabase.{
  configured_databases, discover_databases, name_of_yaml, name_of_scalar, fetch_database,
  fetch_databases, fetch_chosen, fetch_rows,
}

item-put : (k : String) (v : Scalar) (r : Row) → item (put k v r) k ≡ ok v
item-put k v [] = rw (item, put, eq_refl k) refl
item-put k v ((j, u) ∷ r) = elim (Bool-cases (j == k)) [
  | inl same ↦ rw (item, put, same) (rw same refl)
  | inr other ↦ rw (item, put, other) (rw other (item-put k v r))
]

item-put_other :
    (k j : String) (v : Scalar) (r : Row) → (k == j) ≡ false → item (put k v r) j ≡ item r j
item-put_other k j v [] h = rw (item, put, h) refl
item-put_other k j v ((i, u) ∷ r) h = elim (Bool-cases (i == k)) [
  | inl same ↦
      let other = subst (λ x. (x == j) ≡ false) (sym ((eq_iff i k).0 same)) h in
      rw (item, put, same) (rw (item, other) refl)
  | inr differs ↦ elim (Bool-cases (i == j)) [
    | inl this ↦ rw (item, put, differs) (rw (item, this) refl)
    | inr that ↦ rw (item, put, differs) (rw (item, that) (item-put_other k j v r h))
  ]
]

yaml-name : (v : Yaml) (s : String) → name_of_yaml v ≡ ok s → v ≡ Yaml.text s
yaml-name (Yaml.text t) s h = ap Yaml.text (ok_inj h)
yaml-name _ s h = absurd (cc)

scalar-name : (v : Scalar) (s : String) → name_of_scalar v ≡ ok s → v ≡ Scalar.text s
scalar-name (Scalar.text t) s h = ap Scalar.text (ok_inj h)
scalar-name _ s h = absurd (cc)

yaml-names :
    (vs : List Yaml) (names : List String)
    → traverse name_of_yaml vs ≡ ok names
    → vs ≡ map Yaml.text names
yaml-names [] names h = ap (map Yaml.text) (ok_inj h)
yaml-names (v ∷ vs) names h =
    let (s, e1, h1) = >>=-eq-ok (name_of_yaml v) _ h in
    let (rest, e2, h2) = >>=-eq-ok (traverse name_of_yaml vs) _ h1 in
    ap₂ (λ (x : Yaml) (xs : List Yaml). x ∷ xs) (yaml-name v s e1) (yaml-names vs rest e2)
    ∙ ap (map Yaml.text) (ok_inj h2)

scalar-names :
    (vs : List Scalar) (names : List String)
    → traverse name_of_scalar vs ≡ ok names
    → vs ≡ map Scalar.text names
scalar-names [] names h = ap (map Scalar.text) (ok_inj h)
scalar-names (v ∷ vs) names h =
    let (s, e1, h1) = >>=-eq-ok (name_of_scalar v) _ h in
    let (rest, e2, h2) = >>=-eq-ok (traverse name_of_scalar vs) _ h1 in
    ap₂ (λ (x : Scalar) (xs : List Scalar). x ∷ xs) (scalar-name v s e1) (scalar-names vs rest e2)
    ∙ ap (map Scalar.text) (ok_inj h2)

module _ (execute : String → Result (List Row)) where
  -- The databases to ask: those of the configuration, or else those that the instance lists.
  abbrev pub IsTarget : Option (List Yaml) → List String → Type 0
  IsTarget (some vs) names = vs ≡ map Yaml.text names
  IsTarget none names =
      (rows : List Row) × (execute
          "SELECT name FROM sys.databases WHERE state_desc = 'ONLINE' AND database_id > 4;"
        ≡ ok rows)
      × (traverse (λ r. item r "name") rows ≡ ok (map Scalar.text names))

  -- The row names this database, and is otherwise a row of the answer.
  abbrev pub IsTagged : String → Row → Row → Type 0
  IsTagged database_name raw r =
      (item r "database_name" ≡ ok (Scalar.text database_name))
      × ((k : String) → ("database_name" == k) ≡ false → item r k ≡ item raw k)

  abbrev pub AreTagged : String → List Row → List Row → Type 0
  AreTagged database_name [] out = out ≡ []
  AreTagged database_name (raw ∷ answer) [] = ⊥
  AreTagged database_name (raw ∷ answer) (r ∷ out) =
      IsTagged database_name raw r × AreTagged database_name answer out

  -- The rows are those of the answers for each database in turn.
  abbrev pub IsFetched : String → List String → List Row → Type 0
  IsFetched source_query [] out = out ≡ []
  IsFetched source_query (database_name ∷ names) out =
      (answer : List Row) × (here : List Row) × (rest : List Row) × (execute
          ("USE [" <> replace 93 "]]" database_name <> "];\n" <> source_query)
        ≡ ok answer)
      × AreTagged database_name answer here
      × (out ≡ here ++ rest)
      × IsFetched source_query names rest

  map-AreTagged :
      (database_name : String) (answer : List Row)
      → AreTagged database_name answer
          (map (put "database_name" (Scalar.text database_name)) answer)
  map-AreTagged database_name [] = refl
  map-AreTagged database_name (raw ∷ answer) = (
    (
      item-put "database_name" (Scalar.text database_name) raw,
      λ k other. item-put_other "database_name" k (Scalar.text database_name) raw other,
    ),
    map-AreTagged database_name answer,
  )

  fetch_databases-IsFetched :
      {A : Type 0} (name : A → Result String) (source_query : String) (vs : List A) (out : List Row)
      → fetch_databases execute name source_query vs ≡ ok out
      → (names : List String) × (traverse name vs ≡ ok names) × IsFetched source_query names out
  unfolding fetch_databases fetch_database
  fetch_databases-IsFetched name source_query [] out h = ([], refl, sym (ok_inj h))
  fetch_databases-IsFetched name source_query (a ∷ vs) out h =
      let (database_name, e1, h1) = >>=-eq-ok (name a) _ h in
      let (rows, e2, h2) = >>=-eq-ok (fetch_database execute source_query database_name) _ h1 in
      let (answer, e3, h3) =
        >>=-eq-ok (execute ("USE [" <> replace 93 "]]" database_name <> "];\n" <> source_query)) _
          e2 in
      let (rest, e4, h4) = >>=-eq-ok (fetch_databases execute name source_query vs) _ h2 in
      let (names, e5, fetched) = fetch_databases-IsFetched name source_query vs rest e4 in
      (
        database_name ∷ names,
        rw (e1, e5) refl,
        (
          answer,
          rows,
          rest,
          e3,
          subst (AreTagged database_name answer) (ok_inj h3) (map-AreTagged database_name answer),
          sym (ok_inj h4),
          fetched,
        ),
      )

  chosen-IsFetched :
      (source_query : String) (configured : Option (List Yaml)) (out : List Row)
      → fetch_chosen execute source_query configured ≡ ok out
      → (names : List String) × IsTarget configured names × IsFetched source_query names out
  unfolding fetch_chosen
  chosen-IsFetched source_query (some vs) out h =
      let (names, e, fetched) = fetch_databases-IsFetched name_of_yaml source_query vs out h in
      (names, yaml-names vs names e, fetched)
  chosen-IsFetched source_query none out h =
      let (vs, e, h1) = >>=-eq-ok (discover_databases execute) _ h in
      let (names, e2, fetched) = fetch_databases-IsFetched name_of_scalar source_query vs out h1 in
      let (rows, e3, h3) = >>=-eq-ok (execute _) _ e in
      (names, (rows, e3, h3 ∙ ap ok (scalar-names vs names e2)), fetched)

  -- Where the fetch succeeds, there are target databases: those that the configuration has for the
  -- instance, in their order, or, if it has none, those that the instance lists. The rows are the
  -- answers to the query for each of them in turn, a row for each row of the answer: it has the name
  -- of its database under `database_name`, whatever the answer has there, and the other columns of
  -- the answer.
  pub fetch_rows-IsFetched :
      (config : Fields) (source_instance source_query : String) (out : List Row)
      → fetch_rows execute config source_instance source_query ≡ ok out
      → (configured : Option (List Yaml)) × (names : List String) × (configured_databases config
            source_instance
          ≡ ok configured)
        × IsTarget configured names
        × IsFetched source_query names out
  unfolding fetch_rows
  fetch_rows-IsFetched config source_instance source_query out h =
      let (configured, e, h1) = >>=-eq-ok (configured_databases config source_instance) _ h in
      let (names, targets, fetched) = chosen-IsFetched source_query configured out h1 in
      (configured, names, e, targets, fetched)
