-- ===== src/Tasks/Registry/Returns/Rows.antt =====
-- What the transforms ask of a source row, and the loops over rows that meet it.
use sql_observability.Base.{
  ◌⊎◌, ◌≡◌, refl, true, String, List, [], ◌∷◌, ◌++◌, All, All-weaken, all, all-contains,
  all-all-contains, contains, Bool-cases, inl, inr,
}
use sql_observability.Base.Int.{ℤ, pos, ◌-ℤ◌, max_ℤ}
use sql_observability.Py.Errors.{ok, traverse}
use sql_observability.Py.Yaml.{Yaml}
use sql_observability.Py.Row.{Row, Scalar, null, int, time, keys, item, item-keys}
use sql_observability.Tasks.Context.{Context}
use sql_observability.Tasks.Mapped.{stamped, sources, stamped-returns, traverse-returns}
use sql_observability.Tasks.Grouping.{Attribution}
use sql_observability.Tasks.Cpu
use sql_observability.Tasks.QueryPerf
use sql_observability.Tasks.Sessions
use sql_observability.Tasks.Waits

abbrev pub HasColumns : List String → Row → Type 0
HasColumns columns r = all (contains (keys r)) columns ≡ true

HasColumns-within :
    (cs ds : List String) (r : Row)
    → all (contains cs) ds ≡ true
    → HasColumns cs r
    → HasColumns ds r
HasColumns-within cs ds r within has = all-all-contains (contains (keys r)) cs ds has within

pub mapped-returns :
    (source_instance column : String) (stamp : Scalar) (fields : List (String × String))
    (selected : List String) (rows : List Row)
    → all (contains selected) (sources fields) ≡ true
    → All (HasColumns selected) rows
    → (out : List Row) × (traverse (stamped source_instance column stamp fields) rows ≡ ok out)
mapped-returns source_instance column stamp fields selected rows within has =
    traverse-returns (stamped source_instance column stamp fields) rows (
      All-weaken (HasColumns selected) _ rows
        (λ r h.
          stamped-returns source_instance column stamp fields r
            (HasColumns-within selected (sources fields) r within h))
        has)

pub column_item :
    (columns : List String) (r : Row) (k : String)
    → contains columns k ≡ true
    → HasColumns columns r
    → (v : Scalar) × (item r k ≡ ok v)
column_item columns r k within has =
    item-keys k r (all-contains (contains (keys r)) columns k has within)

-- Integers in the two columns that are computed with.
abbrev pub IsLoad : Row → Type 0
IsLoad r =
    HasColumns Cpu.selected r
    × ((sql : ℤ) × (item r "sql_cpu_pct" ≡ ok (Scalar.int sql)))
    × ((idle : ℤ) × (item r "idle_pct" ≡ ok (Scalar.int idle)))

pub sample-returns :
    (ctx : Context) (r : Row) → IsLoad r → (row : Row) × (Cpu.sample ctx r ≡ ok row)
unfolding Cpu.sample
sample-returns ctx r (has, (sql, e), (idle, e2)) =
    let (at, e3) = column_item Cpu.selected r "sample_time_utc" refl has in
    (
      ("source_instance", Scalar.text ctx.source_instance)
          ∷ ("sample_time_utc", at)
          ∷ ("sql_cpu_pct", Scalar.int sql)
          ∷ ("other_cpu_pct", Scalar.int (max_ℤ (pos 0) (pos 100 -ℤ sql -ℤ idle)))
          ∷ ("idle_pct", Scalar.int idle)
          ∷ [],
      rw (e, e2, e3) refl,
    )

pub select-returns :
    (ctx : Context) (exclusions : List Yaml) (rows : List Row)
    → All (HasColumns Waits.selected) rows
    → (out : List Row) × (Waits.select ctx exclusions rows ≡ ok out)
unfolding Waits.select
select-returns ctx exclusions [] has = ([], refl)
select-returns ctx exclusions (r ∷ rows) has =
    let (wait_type, e) = column_item Waits.selected r "wait_type" refl has.0 in
    let (row, e2) =
      stamped-returns ctx.source_instance "snapshot_time_utc" (time ctx.now) Waits.fields r
        (HasColumns-within Waits.selected (sources Waits.fields) r refl has.0) in
    let (rest, e3) = select-returns ctx exclusions rows has.1 in
    elim (Bool-cases (Waits.excluded exclusions wait_type)) [
      | inl left_out ↦ (rest, rw (e, left_out) e3)
      | inr kept ↦ (row ∷ rest, rw (e, kept, e2, e3) refl)
    ]

pub gather-returns :
    (ctx : Context) (seen : List (Scalar × Row)) (rows : List Row)
    → All (HasColumns QueryPerf.selected) rows
    → (out : List (Scalar × Row)) × (QueryPerf.gather ctx seen rows ≡ ok out)
unfolding QueryPerf.gather
gather-returns ctx seen [] has = (seen, refl)
gather-returns ctx seen (r ∷ rows) has =
    let (query_hash, e) = column_item QueryPerf.selected r "query_hash" refl has.0 in
    let (row, e2) =
      stamped-returns ctx.source_instance "snapshot_time_utc" (time ctx.now) QueryPerf.fields r
        (HasColumns-within QueryPerf.selected (sources QueryPerf.fields) r refl has.0) in
    elim (Bool-cases (QueryPerf.known query_hash seen)) [
      | inl old ↦ let (out, e3) = gather-returns ctx seen rows has.1 in (out, rw (e, old) e3)
      | inr new ↦
          let (out, e3) = gather-returns ctx (seen ++ (query_hash, row) ∷ []) rows has.1 in
          (out, rw (e, new, e2) e3)
    ]

-- An integer or NULL.
abbrev IsCount : Scalar → Type 0
IsCount v = (v ≡ null) ⊎ ((n : ℤ) × (v ≡ int n))

-- Integers or NULL in the two columns that are added up.
abbrev pub IsRequest : Row → Type 0
IsRequest r =
    HasColumns Sessions.selected r
    × ((v : Scalar) × (item r "cpu_time" ≡ ok v) × IsCount v)
    × ((v : Scalar) × (item r "logical_reads" ≡ ok v) × IsCount v)

or_zero-returns : (v : Scalar) → IsCount v → (n : ℤ) × (Sessions.or_zero v ≡ ok n)
or_zero-returns v (inl missing) = (pos 0, rw missing refl)
or_zero-returns v (inr (n, e)) = (n, rw e refl)

pub read-returns : (r : Row) → IsRequest r → (e : Attribution × (ℤ × ℤ)) × (Sessions.read r ≡ ok e)
unfolding Sessions.read
read-returns r (has, (v, c1, cpu), (u, d1, reads)) =
    let (login, e1) = column_item Sessions.selected r "login_name" refl has in
    let (program, e2) = column_item Sessions.selected r "program_name" refl has in
    let (host, e3) = column_item Sessions.selected r "host_name" refl has in
    let (database, e4) = column_item Sessions.selected r "database_name" refl has in
    let (n, c2) = or_zero-returns v cpu in
    let (m, d2) = or_zero-returns u reads in
    (
      (
        record {
          login_name = login;
          program_name = program;
          host_name = host;
          database_name = database;
        },
        (n, m),
      ),
      rw (e1, e2, e3, e4, c1, c2, d1, d2) refl,
    )
