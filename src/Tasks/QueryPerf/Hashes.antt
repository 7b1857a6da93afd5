-- ===== src/Tasks/QueryPerf/Hashes.antt =====
-- The rows of src/collectors/query_perf.py by their query_hash.
use sql_observability.Base.{
  ◌≡◌, refl, sym, or-eq-false, All-append, true, false, some, List, [], ◌∷◌, ◌++◌, All, map,
  Bool-cases, inl, inr, subst, arith,
}
use sql_observability.Py.Errors.{ok_inj, ok, ◌>>=◌, >>=-eq-ok}
use sql_observability.Py.Row.{
  Row, Scalar, time, keys, item, find, scalar_beq, scalar_beq_refl, scalar_beq-sym_false,
}
use sql_observability.Tasks.Context.{Context}
use sql_observability.Tasks.Mapped.{stamped-find, stamped, keys-stamped}
use sql_observability.Tasks.QueryPerf.{columns, fields, known, gather, transform}

-- The hashes of the rows differ from each other.
abbrev pub IsUnrepeated : List (Scalar × Row) → Type 0
IsUnrepeated [] = Unit
IsUnrepeated (e ∷ seen) = (known e.0 seen ≡ false) × IsUnrepeated seen

-- What `seen` is after each round: one row for each hash, with the columns.
abbrev pub IsEntry : Scalar × Row → Type 0
IsEntry e = (keys e.1 ≡ columns) × (find "query_hash" e.1 ≡ some e.0)

known-append :
    (q a : Scalar) (row : Row) (seen : List (Scalar × Row))
    → known q seen ≡ false
    → scalar_beq a q ≡ false
    → known q (seen ++ (a, row) ∷ []) ≡ false
known-append q a row [] h k = ground arith
known-append q a row (e ∷ seen) h k = ground (arith, known-append q a row seen)

append-IsUnrepeated :
    (q : Scalar) (row : Row) (seen : List (Scalar × Row))
    → known q seen ≡ false
    → IsUnrepeated seen
    → IsUnrepeated (seen ++ (q, row) ∷ [])
append-IsUnrepeated q row [] h u = (refl, tt)
append-IsUnrepeated q row (e ∷ seen) h u =
    let (this, others) = or-eq-false (scalar_beq e.0 q) _ h in
    (
      known-append e.0 q row seen u.0 (scalar_beq-sym_false e.0 q this),
      append-IsUnrepeated q row seen others u.1,
    )

stamped-IsEntry :
    (ctx : Context) (r row : Row) (query_hash : Scalar)
    → item r "query_hash" ≡ ok query_hash
    → stamped ctx.source_instance "snapshot_time_utc" (time ctx.now) fields r ≡ ok row
    → IsEntry (query_hash, row)
stamped-IsEntry ctx r row query_hash e h = (
  keys-stamped ctx.source_instance "snapshot_time_utc" (time ctx.now) fields r row h,
  stamped-find ctx.source_instance "snapshot_time_utc" (time ctx.now) "query_hash" "query_hash" _ r
      row query_hash refl refl refl e h,
)

gather-IsUnrepeated :
    (ctx : Context) (seen : List (Scalar × Row)) (rows : List Row) (out : List (Scalar × Row))
    → IsUnrepeated seen × All IsEntry seen
    → gather ctx seen rows ≡ ok out
    → IsUnrepeated out × All IsEntry out
unfolding gather
gather-IsUnrepeated ctx seen [] out inv h =
    subst (λ s. IsUnrepeated s × All IsEntry s) (ok_inj h) inv
gather-IsUnrepeated ctx seen (r ∷ rows) out inv h =
    let (q, e, h1) = >>=-eq-ok (item r "query_hash") _ h in
    elim (Bool-cases (known q seen)) [
      | inl old ↦ gather-IsUnrepeated ctx seen rows out inv (rw old at h1)
      | inr new ↦
          let h2 = rw new at h1 in
          let (seen', e2, h3) =
            >>=-eq-ok
              (stamped ctx.source_instance "snapshot_time_utc" (time ctx.now) fields r >>= λ row.
                ok (seen ++ (q, row) ∷ []))
              _ h2 in
          let (row, e4, h4) =
            >>=-eq-ok (stamped ctx.source_instance "snapshot_time_utc" (time ctx.now) fields r) _
              e2 in
          gather-IsUnrepeated ctx (seen ++ (q, row) ∷ []) rows out
            (
              append-IsUnrepeated q row seen new inv.0,
              All-append IsEntry seen _ inv.1 (stamped-IsEntry ctx r row q e e4, tt),
            )
            (subst (λ s. gather ctx s rows ≡ ok out) (sym (ok_inj h4)) h3)
    ]

known-append_old :
    (q : Scalar) (e : Scalar × Row) (seen : List (Scalar × Row))
    → known q seen ≡ true
    → known q (seen ++ e ∷ []) ≡ true
known-append_old q e [] h = absurd (cc)
known-append_old q e (d ∷ seen) h = ground (arith, known-append_old q e seen)

known-append_new :
    (q : Scalar) (row : Row) (seen : List (Scalar × Row)) → known q (seen ++ (q, row) ∷ []) ≡ true
known-append_new q row [] = ground (arith, scalar_beq_refl q)
known-append_new q row (d ∷ seen) = ground (arith, known-append_new q row seen)

-- Whatever `seen` knows, it knows to the end.
gather-known :
    (ctx : Context) (seen : List (Scalar × Row)) (rows : List Row) (out : List (Scalar × Row))
    (q : Scalar)
    → known q seen ≡ true
    → gather ctx seen rows ≡ ok out
    → known q out ≡ true
unfolding gather
gather-known ctx seen [] out q k h = subst (λ s. known q s ≡ true) (ok_inj h) k
gather-known ctx seen (r ∷ rows) out q k h =
    let (p, e, h1) = >>=-eq-ok (item r "query_hash") _ h in
    elim (Bool-cases (known p seen)) [
      | inl old ↦ gather-known ctx seen rows out q k (rw old at h1)
      | inr new ↦
          let (seen', e2, h2) =
            >>=-eq-ok
              (stamped ctx.source_instance "snapshot_time_utc" (time ctx.now) fields r >>= λ row.
                ok (seen ++ (p, row) ∷ []))
              _ (rw new at h1) in
          let (row, e3, h3) =
            >>=-eq-ok (stamped ctx.source_instance "snapshot_time_utc" (time ctx.now) fields r) _
              e2 in
          gather-known ctx seen' rows out q
            (subst (λ s. known q s ≡ true) (ok_inj h3) (known-append_old q (p, row) seen k)) h2
    ]

-- The source row has a hash, and the hash is known.
abbrev pub IsCovered : List (Scalar × Row) → Row → Type 0
IsCovered seen r = (q : Scalar) × (item r "query_hash" ≡ ok q) × (known q seen ≡ true)

gather-IsCovered :
    (ctx : Context) (seen : List (Scalar × Row)) (rows : List Row) (out : List (Scalar × Row))
    → gather ctx seen rows ≡ ok out
    → All (IsCovered out) rows
unfolding gather
gather-IsCovered ctx seen [] out h = tt
gather-IsCovered ctx seen (r ∷ rows) out h =
    let (p, e, h1) = >>=-eq-ok (item r "query_hash") _ h in
    elim (Bool-cases (known p seen)) [
      | inl old ↦
          let h2 = rw old at h1 in
          ((p, e, gather-known ctx seen rows out p old h2), gather-IsCovered ctx seen rows out h2)
      | inr new ↦
          let (seen', e2, h2) =
            >>=-eq-ok
              (stamped ctx.source_instance "snapshot_time_utc" (time ctx.now) fields r >>= λ row.
                ok (seen ++ (p, row) ∷ []))
              _ (rw new at h1) in
          let (row, e3, h3) =
            >>=-eq-ok (stamped ctx.source_instance "snapshot_time_utc" (time ctx.now) fields r) _
              e2 in
          let there = subst (λ s. known p s ≡ true) (ok_inj h3) (known-append_new p row seen) in
          (
            (p, e, gather-known ctx seen' rows out p there h2),
            gather-IsCovered ctx seen' rows out h2,
          )
    ]

-- Where the transform succeeds, its rows are those of a dictionary by query_hash: no two rows have
-- the same hash, every row has exactly the columns, and the hash of every source row is there.
pub transform-IsUnrepeated :
    (ctx : Context) (rows out : List Row)
    → transform ctx rows ≡ ok out
    → (seen : List (Scalar × Row)) × (map (λ e. e.1) seen ≡ out)
      × IsUnrepeated seen
      × All IsEntry seen
      × All (IsCovered seen) rows
unfolding transform
transform-IsUnrepeated ctx rows out h =
    let (seen, e, h1) = >>=-eq-ok (gather ctx [] rows) _ h in
    let (unrepeated, each) = gather-IsUnrepeated ctx [] rows seen (tt, tt) e in
    (seen, ok_inj h1, unrepeated, each, gather-IsCovered ctx [] rows seen e)

map-keys :
    (seen : List (Scalar × Row))
    → All IsEntry seen
    → All (λ r. keys r ≡ columns) (map (λ e. e.1) seen)
map-keys [] h = tt
map-keys (e ∷ seen) h = (h.0.0, map-keys seen h.1)

pub transform-keys :
    (ctx : Context) (rows out : List Row)
    → transform ctx rows ≡ ok out
    → All (λ r. keys r ≡ columns) out
transform-keys ctx rows out h =
    let (seen, e, unrepeated, each, covered) = transform-IsUnrepeated ctx rows out h in
    subst (All (λ r. keys r ≡ columns)) e (map-keys seen each)
