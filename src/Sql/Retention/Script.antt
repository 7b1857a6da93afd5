-- ===== src/Sql/Retention/Script.antt =====
-- The whole script of sql/retention.sql.
use sql_observability.Base.{
  ℕ, suc, ◌+◌, ◌*◌, ◌≤◌, ◌≡◌, refl, ap, ◌∙◌, String, true, false, not, some, List, [], ◌∷◌, ◌++◌,
  map, keep, ltb, All, All-append, contains, or-eq-false, eq_refl, ◌==◌, arith, all, and-eq-true,
  Bool-cases, eq_iff, inl, inr,
}
use sql_observability.Db.Server.{Fact, Store}
use sql_observability.Db.Merge.{set_table}
use sql_observability.Collector.Log.{IsLog}
use sql_observability.Sql.Retention.{
  Window, windows, later_windows, is_old, microseconds_a_day, purge_facts, retention,
}
use sql_observability.Sql.Retention.Purged.{purge_table-keep}
use sql_observability.Sql.Retention.Log.{purge_runs-IsLog}

-- What is left of a table: the rows that are inside the window at some time of the clock.
abbrev pub IsPurged : (String → ℕ → ℕ) → Store → Store → Window → Type 0
IsPurged clock store after w =
    (last : ℕ) × (after.facts w.table
      ≡ keep (λ r. not (is_old w (clock w.table last) r)) (store.facts w.table))

abbrev pub tables : List Window → List String
tables ws = map (λ w. w.table) ws

-- No table twice.
abbrev IsDistinct : List Window → Type 0
IsDistinct [] = Unit
IsDistinct (w ∷ ws) = (contains (tables ws) w.table ≡ false) × IsDistinct ws

-- Stores that agree outside some tables.
abbrev pub IsSame : List String → Store → Store → Type 0
IsSame names store after =
    (name : String) → contains names name ≡ false → after.facts name ≡ store.facts name

set_table-same :
    (name t : String) (left : List Fact) (store : Store)
    → (t == name) ≡ false
    → (set_table name (λ _. left) store).facts t ≡ store.facts t
set_table-same name t left store h = rw h refl

set_table-this :
    (name : String) (left : List Fact) (store : Store)
    → (set_table name (λ _. left) store).facts name ≡ left
set_table-this name left store = rw (eq_refl name) refl

beq_false_sym : (s t : String) → (s == t) ≡ false → (t == s) ≡ false
beq_false_sym s t h = elim (Bool-cases (t == s)) [
  | inl same ↦ let e = (eq_iff t s).0 same in let reflexive = eq_refl t in absurd (cc)
  | inr other ↦ other
]

-- Equal tables are purged alike.
All-IsPurged :
    (clock : String → ℕ → ℕ) (ws : List Window) (store before after next : Store)
    → All (λ w. store.facts w.table ≡ before.facts w.table) ws
    → All (λ w. next.facts w.table ≡ after.facts w.table) ws
    → All (IsPurged clock store after) ws
    → All (IsPurged clock before next) ws
All-IsPurged clock [] store before after next old new h = tt
All-IsPurged clock (w ∷ ws) store before after next old new h = (
  (h.0.0, new.0 ∙ h.0.1 ∙ ap (keep (λ r. not (is_old w (clock w.table h.0.0) r))) old.0),
  All-IsPurged clock ws store before after next old.1 new.1 h.1,
)

All-refl :
    (ws : List Window) (store : Store) → All (λ w. store.facts w.table ≡ store.facts w.table) ws
All-refl [] store = tt
All-refl (w ∷ ws) store = (refl, All-refl ws store)

All-set_table :
    (name : String) (left : List Fact) (ws : List Window) (store : Store)
    → contains (tables ws) name ≡ false
    → All (λ w. (set_table name (λ _. left) store).facts w.table ≡ store.facts w.table) ws
All-set_table name left [] store h = tt
All-set_table name left (w ∷ ws) store h =
    let (this, others) = or-eq-false (w.table == name) _ h in
    (set_table-same name w.table left store this, All-set_table name left ws store others)

All-IsSame :
    (names : List String) (ws : List Window) (store after : Store)
    → all (λ w. not (contains names w.table)) ws ≡ true
    → IsSame names store after
    → All (λ w. after.facts w.table ≡ store.facts w.table) ws
All-IsSame names [] store after h same = tt
All-IsSame names (w ∷ ws) store after h same =
    let (this, others) = and-eq-true (not (contains names w.table)) _ h in
    (same w.table (ground (arith, this)), All-IsSame names ws store after others same)

-- The loops of some windows, with what they leave alone.
abbrev IsDone : (String → ℕ → ℕ) → List Window → Store → Store → Type 0
IsDone clock ws store after =
    (purge_facts clock ws store ≡ some after)
    × All (IsPurged clock store after) ws
    × IsSame (tables ws) store after
    × (after.runs ≡ store.runs)
    × (after.next_id ≡ store.next_id)

purge_facts-IsDone :
    (clock : String → ℕ → ℕ) (ws : List Window) (store : Store)
    → ((name : String) (i : ℕ) → clock name i ≤ clock name (suc i))
    → IsDistinct ws
    → (after : Store) × IsDone clock ws store after
unfolding purge_facts
purge_facts-IsDone clock [] store forward d = (store, (refl, tt, λ name h. refl, refl, refl))
purge_facts-IsDone clock (w ∷ ws) store forward d =
    let (last, ends) = purge_table-keep (clock w.table) w (store.facts w.table) (forward w.table) in
    let left = keep (λ r. not (is_old w (clock w.table last) r)) (store.facts w.table) in
    let next = set_table w.table (λ _. left) store in
    let (after, (done, purged, same, runs, next_id)) =
      purge_facts-IsDone clock ws next forward d.1 in
    (
      after,
      (
        rw ends done,
        (
          (last, same w.table d.0 ∙ set_table-this w.table left store),
          All-IsPurged clock ws next store after after (All-set_table w.table left ws store d.0)
              (All-refl ws after) purged,
        ),
        (λ name h.
            let (this, others) = or-eq-false (w.table == name) _ h in
            same name others
            ∙ set_table-same w.table name left store (beq_false_sym w.table name this)),
        runs,
        next_id,
      ),
    )

windows-IsDistinct : IsDistinct windows
windows-IsDistinct =
    (refl, (refl, (refl, (refl, (refl, (refl, (refl, (refl, (refl, (refl, tt))))))))))

later_windows-IsDistinct : IsDistinct later_windows
later_windows-IsDistinct = (refl, (refl, (refl, tt)))

contains-append :
    (ws vs : List Window) (name : String)
    → contains (tables (ws ++ vs)) name ≡ false
    → (contains (tables ws) name ≡ false) × (contains (tables vs) name ≡ false)
contains-append [] vs name h = (refl, h)
contains-append (w ∷ ws) vs name h =
    let (this, others) = or-eq-false (w.table == name) _ h in
    let (left, right) = contains-append ws vs name others in (rw (this, left) refl, right)

IsLog-same :
    (store after : Store)
    → after.runs ≡ store.runs
    → after.next_id ≡ store.next_id
    → IsLog store
    → IsLog after
IsLog-same store after runs next_id log = rw (runs, next_id) log

-- The tables of facts that the script purges.
abbrev pub purged : List Window
purged = windows ++ later_windows

-- The script ends, with clocks that do not go back. What it leaves of each of its tables of facts are
-- the rows, in their order, that are not older than the window at some time of the clock, it leaves
-- the other tables alone, and of the log the entries that began no earlier than 90 days before some
-- time of the clock. A well-formed log stays well formed.
pub retention-IsPurged :
    (clock : String → ℕ → ℕ) (store : Store)
    → ((name : String) (i : ℕ) → clock name i ≤ clock name (suc i))
    → IsLog store
    → (after : Store) × (retention clock store ≡ some after)
      × All (IsPurged clock store after) purged
      × IsSame (tables purged) store after
      × ((last : ℕ) × (after.runs
            ≡ keep
                (λ r.
                  not (
                    ltb (r.started_at + 90 * microseconds_a_day) (clock "dbo.collection_run" last)))
                store.runs))
      × IsLog after
unfolding retention
retention-IsPurged clock store forward log =
    let (first, (ends1, purged1, same1, runs1, id1)) =
      purge_facts-IsDone clock windows store forward windows-IsDistinct in
    let log1 : IsLog first = IsLog-same store first runs1 id1 log in
    let (last, left, ends2, kept, log2) =
      purge_runs-IsLog (clock "dbo.collection_run") first (forward "dbo.collection_run") log1 in
    let second = record first { runs = left } in
    let (after, (ends3, purged3, same3, runs3, id3)) =
      purge_facts-IsDone clock later_windows second forward later_windows-IsDistinct in
    (
      after,
      rw (ends1, ends2) ends3,
      All-append (IsPurged clock store after) windows later_windows
          (All-IsPurged clock windows store store first after (All-refl windows store)
            (All-IsSame (tables later_windows) windows second after refl same3) purged1)
          (All-IsPurged clock later_windows second store after after
            (All-IsSame (tables windows) later_windows store first refl same1)
            (All-refl later_windows after) purged3),
      (λ name h.
          let (before, later) = contains-append windows later_windows name h in
          same3 name later ∙ same1 name before),
      (
        last,
        runs3
            ∙ kept
            ∙ ap
                (keep (λ r.
                  not (
                    ltb (r.started_at + 90 * microseconds_a_day)
                      (clock "dbo.collection_run" last))))
                runs1,
      ),
      IsLog-same second after runs3 id3 log2,
    )
