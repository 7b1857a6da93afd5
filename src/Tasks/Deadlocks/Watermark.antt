-- ===== src/Tasks/Deadlocks/Watermark.antt =====
-- The watermark of src/collectors/deadlocks.py.
use sql_observability.Base.{
  ◌≡◌, refl, ℕ, String, some, List, [], ◌∷◌, All, map, keep, ltb, Bool-cases, inl, inr,
}
use sql_observability.Py.Errors.{ok, err, type_error}
use sql_observability.Py.Datetime.{aware, naive, instant, after}
use sql_observability.Py.Xml.{Parsers}
use sql_observability.Py.Row.{Row, text, item}
use sql_observability.Tasks.Context.{Context}
use sql_observability.Tasks.Deadlocks.{
  Deadlock, newer, new_events, parse_deadlock_events, row_of, transform,
}

abbrev pub IsStamped : Deadlock → Type 0
IsStamped d = (at : ℕ) × (d.event_time_utc ≡ aware at)

pub newer-keep :
    (wm : ℕ) (events : List Deadlock)
    → All IsStamped events
    → newer (aware wm) events ≡ ok (keep (λ e. ltb wm (instant e.event_time_utc)) events)
unfolding newer after
newer-keep wm [] h = refl
newer-keep wm (e ∷ events) ((at, stamp), offsets) = elim (Bool-cases (ltb wm at)) [
  | inl late ↦ rw (stamp, newer-keep wm events offsets, late) refl
  | inr early ↦ rw (stamp, newer-keep wm events offsets, early) refl
]

module _ (p : Parsers) (ctx : Context) (r : Row) (rows : List Row) (xml : String)
    (buffer : item r "target_xml" ≡ ok (text xml)) where
  -- With a watermark that has an offset, the transform gives a row for each report of the ring
  -- buffer at a later instant, in their order, where the reports parse and their timestamps have
  -- offsets. Later rows of the source are not read.
  pub transform-keep :
      (events : List Deadlock) (wm : ℕ)
      → parse_deadlock_events p xml ≡ ok events
      → All IsStamped events
      → ctx.watermark ≡ some (aware wm)
      → transform p ctx (r ∷ rows)
        ≡ ok (map (row_of ctx) (keep (λ e. ltb wm (instant e.event_time_utc)) events))
  unfolding transform new_events
  transform-keep events wm parsed offsets watermark =
      rw (buffer, parsed, watermark, newer-keep wm events offsets) refl

  -- With a watermark that has no offset, which is what a DATETIME2 gives, the transform raises
  -- TypeError if the first report of the ring buffer has a timestamp with an offset.
  pub deadlocks_naive :
      (e : Deadlock) (events : List Deadlock) (at wm : ℕ)
      → parse_deadlock_events p xml ≡ ok (e ∷ events)
      → e.event_time_utc ≡ aware at
      → ctx.watermark ≡ some (naive wm)
      → transform p ctx (r ∷ rows) ≡ err type_error
  unfolding transform new_events newer after
  deadlocks_naive e events at wm parsed stamp watermark = rw (buffer, parsed, watermark, stamp) refl
