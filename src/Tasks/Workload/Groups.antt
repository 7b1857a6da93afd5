-- ===== src/Tasks/Workload/Groups.antt =====
-- What the groups of src/collectors/workload.py are made of.
use sql_observability.Base.{
  ◌≡◌, refl, none, some, List, [], ◌∷◌, All, map, length, length-map, arith, subst, if◌then◌else◌,
}
use sql_observability.Py.Errors.{ok_inj, ok, traverse, >>=-eq-ok}
use sql_observability.Py.Datetime.{Datetime}
use sql_observability.Py.Xml.{Parsers}
use sql_observability.Py.Row.{Row, keys}
use sql_observability.Tasks.Context.{Context}
use sql_observability.Tasks.Grouping.{
  Attribution, total, value, has_key, IsUnrepeated, group-value-none, group-IsUnrepeated, sum,
  sum-group,
}
use sql_observability.Tasks.Workload.{
  columns, Event, Usage, no_usage, add_event, tally, row_of, window_start, parse_row, new_events,
  aggregate, transform,
}

keys-row_of :
    (ctx : Context) (start : Datetime) (groups : List (Attribution × Usage))
    → All (λ r. keys r ≡ columns) (map (row_of ctx start) groups)
keys-row_of ctx start [] = tt
keys-row_of ctx start (g ∷ groups) = (refl, keys-row_of ctx start groups)

-- The group of a key is the fold of the events with that key, in their order; there is no group
-- for a key without events.
pub tally-value :
    (key : Attribution) (events : List Event)
    → value key (tally events) ≡ (
        if has_key key (map (λ e. (e.key, e)) events)
        then some (total add_event no_usage key no_usage (map (λ e. (e.key, e)) events))
        else none)
unfolding tally
tally-value key events =
    group-value-none add_event no_usage key (map (λ e. (e.key, e)) events) [] refl

-- The start of the window of these events, if there is any.
abbrev pub IsStart : Context → List Event → Datetime → Type 0
IsStart ctx [] start = Unit
IsStart ctx (e ∷ events) start = window_start ctx.watermark e events ≡ ok start

-- The events by their keys.
abbrev pub by_key : List Event → List (Attribution × Event)
by_key events = map (λ e. (e.key, e)) events

-- Groups with different keys, each the fold of the events with its key.
abbrev pub IsGrouped : List Event → List (Attribution × Usage) → Type 0
IsGrouped recent groups =
    IsUnrepeated groups
    × ((key : Attribution)
        → value key groups ≡ (
            if has_key key (by_key recent)
            then some (total add_event no_usage key no_usage (by_key recent))
            else none))
    × (sum add_event no_usage (λ g. g.exec_count) groups ≡ length recent)

-- What the rows of a run are, given the events that are new.
abbrev pub IsTally : Context → List Event → List Row → Type 0
IsTally ctx recent out =
    (start : Datetime) × (groups : List (Attribution × Usage)) × (map (row_of ctx start) groups
      ≡ out)
    × IsStart ctx recent start
    × IsGrouped recent groups

aggregate-IsTally :
    (ctx : Context) (recent : List Event) (out : List Row)
    → aggregate ctx recent ≡ ok out
    → IsTally ctx recent out
unfolding aggregate tally
aggregate-IsTally ctx [] out h = (ctx.now, [], ok_inj h, tt, (tt, λ key. refl, refl))
aggregate-IsTally ctx (e ∷ events) out h =
    let (start, e1, h1) = >>=-eq-ok (window_start ctx.watermark e events) _ h in
    let pairs : List (Attribution × Event) = map (λ d. (d.key, d)) (e ∷ events) in
    let as_many = length-map {B = Attribution × Event} (λ d. (d.key, d)) (e ∷ events) in
    let counted =
      sum-group add_event no_usage (λ g. g.exec_count) pairs [] (λ v n. omega arith) refl in
    (
      start,
      tally (e ∷ events),
      ok_inj h1,
      e1,
      (
        group-IsUnrepeated add_event no_usage pairs [] tt,
        λ key. tally-value key (e ∷ events),
        omega (arith, counted, as_many),
      ),
    )

-- Where the transform succeeds, every source row parsed, and the rows are those of groups, with the
-- start of the window: the keys of the groups differ from each other, the group of a key is the fold
-- of the new events with that key, in their order, there is no group for another key, and the
-- execution counts add up to the number of new events.
pub transform-IsTally :
    (p : Parsers) (ctx : Context) (rows out : List Row)
    → transform p ctx rows ≡ ok out
    → (events : List Event) × (recent : List Event) × (traverse (parse_row p) rows ≡ ok events)
      × (new_events ctx.watermark events ≡ ok recent)
      × IsTally ctx recent out
unfolding transform
transform-IsTally p ctx rows out h =
    let (events, e, h1) = >>=-eq-ok (traverse (parse_row p) rows) _ h in
    let (recent, e2, h2) = >>=-eq-ok (new_events ctx.watermark events) _ h1 in
    (events, recent, e, e2, aggregate-IsTally ctx recent out h2)

pub transform-keys :
    (p : Parsers) (ctx : Context) (rows out : List Row)
    → transform p ctx rows ≡ ok out
    → All (λ r. keys r ≡ columns) out
transform-keys p ctx rows out h =
    let (events, recent, e, e2, of_groups) = transform-IsTally p ctx rows out h in
    let (start, groups, same, _, _) = of_groups in
    subst (All (λ r. keys r ≡ columns)) same (keys-row_of ctx start groups)
