-- ===== src/Tasks/Waits.antt =====
-- src/collectors/waits.py: its columns, its MERGE and its `transform`, which leaves out the wait
-- types that config.yaml excludes.
use sql_observability.Collector.{Collector}
use sql_observability.Collector.Fetch.{fetch_once}
use sql_observability.Base.{
  ◌≡◌, refl, Bool, false, not, some, String, List, [], ◌∷◌, All, All-weaken, any, map,
  if◌then◌else◌, Bool-cases, inl, inr, subst,
}
use sql_observability.Py.Errors.{
  ok_inj, Result, ok, err, type_error, raise_if, ◌>>=◌, ◌>>◌, >>=-eq-ok,
}
use sql_observability.Py.Text.{characters}
use sql_observability.Py.Yaml.{Yaml, Items, elements, entries, hashable, get_or, yaml_eq}
use sql_observability.Py.Row.{Row, Scalar, time, keys, item, find}
use sql_observability.Db.Server.{Merge, column}
use sql_observability.Tasks.Context.{Context}
use sql_observability.Tasks.Mapped.{stamped-find, stamped, keys-stamped}

-- `_SOURCE_QUERY`
unfoldable pub source_query : String
source_query = "SELECT wait_type, wait_time_ms, waiting_tasks_count FROM sys.dm_os_wait_stats;"

-- the columns that the query selects
abbrev pub selected : List String
selected = "wait_type" ∷ "wait_time_ms" ∷ "waiting_tasks_count" ∷ []

abbrev pub columns : List String
columns =
    "source_instance" ∷ "snapshot_time_utc" ∷ "wait_type" ∷ "wait_ms_cum" ∷ "waiting_tasks_cum" ∷ []

abbrev pub upsert : Merge
upsert = record {
  target = "dbo.fact_wait_stats";
  source =
      "source_instance" ∷ "snapshot_time_utc" ∷ "wait_type" ∷ "wait_ms_cum" ∷ "waiting_tasks_cum"
      ∷ [];
  on = column "source_instance" ∷ column "snapshot_time_utc" ∷ column "wait_type" ∷ [];
  update = "wait_ms_cum" ∷ "waiting_tasks_cum" ∷ [];
  insert =
      "source_instance" ∷ "snapshot_time_utc" ∷ "wait_type" ∷ "wait_ms_cum" ∷ "waiting_tasks_cum"
      ∷ [];
}

-- the values that a row takes from the source row
abbrev pub fields : List (String × String)
fields =
    ("wait_type", "wait_type")
    ∷ ("wait_ms_cum", "wait_time_ms")
    ∷ ("waiting_tasks_cum", "waiting_tasks_count")
    ∷ []

-- `set(v)`: its elements, which must be hashable
unfoldable pub set_of : Yaml → Result (List Yaml)
set_of (Yaml.list vs) =
    raise_if (any (λ v. not (hashable v)) (elements vs)) type_error >> ok (elements vs)
set_of (Yaml.dict fs) = ok (map (λ e. Yaml.text e.0) (entries fs))
set_of (Yaml.text s) = ok (map Yaml.text (characters s))
set_of _ = err type_error

-- `value in exclusions`
unfoldable pub excluded : List Yaml → Scalar → Bool
excluded exclusions Scalar.null = any (yaml_eq Yaml.null) exclusions
excluded exclusions (Scalar.int n) = any (yaml_eq (Yaml.int n)) exclusions
excluded exclusions (Scalar.text s) = any (yaml_eq (Yaml.text s)) exclusions
excluded exclusions _ = false

-- The comprehension with its `if`.
unfoldable pub select : Context → List Yaml → List Row → Result (List Row)
select ctx exclusions [] = ok []
select ctx exclusions (r ∷ rows) =
    let others = select ctx exclusions rows in
    do
      wait_type ← item r "wait_type"
      if excluded exclusions wait_type then others else (do
        row ← stamped ctx.source_instance "snapshot_time_utc" (time ctx.now) fields r
        rest ← others
        ok (row ∷ rest))

unfoldable pub transform : Context → List Row → Result (List Row)
unfolding set_of select
transform ctx rows = do
  exclusions ← set_of (get_or ctx.config "wait_type_exclusions" (Yaml.list Items.nil))
  select ctx exclusions rows

-- The class.
abbrev pub collector : Context → Collector
collector ctx = record {
  task_name = "waits";
  fetch_rows = fetch_once (ok source_query);
  transform = transform ctx;
  columns = columns;
  upsert = upsert;
}

-- What the transform makes of one source row.
abbrev pub IsKept : List Yaml → Row → Type 0
IsKept exclusions row =
    (keys row ≡ columns)
    × ((wait_type : Scalar) × (find "wait_type" row ≡ some wait_type)
        × (excluded exclusions wait_type ≡ false))

stamped-IsKept :
    (ctx : Context) (exclusions : List Yaml) (r row : Row) (wait_type : Scalar)
    → item r "wait_type" ≡ ok wait_type
    → excluded exclusions wait_type ≡ false
    → stamped ctx.source_instance "snapshot_time_utc" (time ctx.now) fields r ≡ ok row
    → IsKept exclusions row
stamped-IsKept ctx exclusions r row wait_type e kept h = (
  keys-stamped ctx.source_instance "snapshot_time_utc" (time ctx.now) fields r row h,
  (
    wait_type,
    stamped-find ctx.source_instance "snapshot_time_utc" (time ctx.now) "wait_type" "wait_type" _ r
        row wait_type refl refl refl e h,
    kept,
  ),
)

select-IsKept :
    (ctx : Context) (exclusions : List Yaml) (rows out : List Row)
    → select ctx exclusions rows ≡ ok out
    → All (IsKept exclusions) out
unfolding select
select-IsKept ctx exclusions [] [] h = tt
select-IsKept ctx exclusions [] (o ∷ out) h = absurd (cc)
select-IsKept ctx exclusions (r ∷ rows) out h =
    let (wait_type, e, h1) = >>=-eq-ok (item r "wait_type") _ h in
    elim (Bool-cases (excluded exclusions wait_type)) [
      | inl out' ↦ select-IsKept ctx exclusions rows out (rw out' at h1)
      | inr kept ↦
          let (row, e2, h2) =
            >>=-eq-ok (stamped ctx.source_instance "snapshot_time_utc" (time ctx.now) fields r) _
              (rw kept at h1) in
          let (rest, e3, h3) = >>=-eq-ok (select ctx exclusions rows) _ h2 in
          subst (All (IsKept exclusions)) (ok_inj h3) (
            stamped-IsKept ctx exclusions r row wait_type e kept e2,
            select-IsKept ctx exclusions rows rest e3,
          )
    ]

-- Where the transform succeeds, `wait_type_exclusions` of the configuration is a set, every row has
-- exactly the columns, and no row has an excluded wait type.
pub transform-IsKept :
    (ctx : Context) (rows out : List Row)
    → transform ctx rows ≡ ok out
    → (exclusions : List Yaml) × (set_of
          (get_or ctx.config "wait_type_exclusions" (Yaml.list Items.nil))
        ≡ ok exclusions)
      × All (IsKept exclusions) out
unfolding transform
transform-IsKept ctx rows out h =
    let (exclusions, e, h1) =
      >>=-eq-ok (set_of (get_or ctx.config "wait_type_exclusions" (Yaml.list Items.nil))) _ h in
    (exclusions, e, select-IsKept ctx exclusions rows out h1)

pub transform-keys :
    (ctx : Context) (rows out : List Row)
    → transform ctx rows ≡ ok out
    → All (λ r. keys r ≡ columns) out
transform-keys ctx rows out h =
    let (exclusions, e, kept) = transform-IsKept ctx rows out h in
    All-weaken (IsKept exclusions) _ out (λ r k. k.0) kept
