-- ===== src/Tests/Deadlocks.antt =====
-- The watermark of the deadlocks collector.
use sql_observability.Base.{
  String, false, List, length, inr, ◌≡◌, refl, none, some, [], ◌∷◌, map, keep, ltb,
}
use sql_observability.Base.Int.{pos}
use sql_observability.Py.Errors.{ok, err, type_error}
use sql_observability.Py.Datetime.{aware, naive, instant}
use sql_observability.Py.Xml.{
  Element, element, nothing, child, Parsers, find_first, findall, get_attrib,
}
use sql_observability.Py.Row.{Row, Scalar}
use sql_observability.Tasks.Deadlocks.{
  Deadlock, row_of, transform, parse_deadlock_events, parse_one_deadlock,
}
use sql_observability.Tasks.Deadlocks.Reported.{IsReported, parse_one_deadlock-IsReported}
use sql_observability.Tasks.Deadlocks.Watermark.{transform-keep, deadlocks_naive}
use sql_observability.Tests.Data.{context, world, fresh, outside, config}
use sql_observability.Db.Query.{Cursor, execute}
use sql_observability.Collector.{Collector}
use sql_observability.Tasks.Registry.{Task, collector}
use sql_observability.Cli.{Outside, run_collector}
use sql_observability.Cli.Success.{run_collector-returns}

abbrev deadlock : Element
deadlock = element "deadlock" [] none (
    child
      (element "victim-list" [] none
        (child (element "victimProcess" (("id", "p1") ∷ []) none nothing) nothing))
      (child
        (element "process-list" [] none (
          child
            (element "process" (("id", "p1") ∷ ("spid", "55") ∷ ("loginname", "app") ∷ []) none
              nothing)
            nothing))
        nothing))

abbrev report : Element
report =
    element "event" (("name", "xml_deadlock_report") ∷ ("timestamp", "2024-05-01T10:00:00Z") ∷ [])
      none
      (child
        (element "data" [] none (child (element "value" [] none (child deadlock nothing)) nothing))
        nothing)

abbrev ring_buffer : Element
ring_buffer = element "RingBufferTarget" [] none (child report nothing)

abbrev parsers : Parsers
parsers = record {
  fromstring = λ s. ok ring_buffer;
  tostring = λ e. "<deadlock/>";
  fromisoformat = λ s. ok (aware 100);
  to_int = λ s. ok (pos 55);
  format_int = λ n. "55";
}

abbrev buffer_row : Row
buffer_row = ("target_xml", Scalar.text "<RingBufferTarget/>") ∷ []

abbrev parsed_report : Deadlock
parsed_report = record {
  event_time_utc = aware 100;
  victim_session_id = some (pos 55);
  victim_login = some "app";
  victim_program = none;
  process_count = 1;
  resource_summary = none;
  deadlock_graph_xml = "<deadlock/>";
}

report_parses : parse_deadlock_events parsers "<RingBufferTarget/>" ≡ ok (parsed_report ∷ [])
unfolding parse_deadlock_events
report_parses = refl

deadlocks_naive_example :
    transform parsers (context (some (naive 50))) (buffer_row ∷ []) ≡ err type_error
deadlocks_naive_example =
    deadlocks_naive parsers (context (some (naive 50))) buffer_row [] "<RingBufferTarget/>" refl
      parsed_report [] 100 50 report_parses refl refl

transform-keep_example :
    transform parsers (context (some (aware 50))) (buffer_row ∷ [])
    ≡ ok (
        map
          (row_of (context (some (aware 50))))
          (keep (λ (e : Deadlock). ltb 50 (instant e.event_time_utc)) (parsed_report ∷ [])))
transform-keep_example =
    transform-keep parsers (context (some (aware 50))) buffer_row [] "<RingBufferTarget/>" refl
      (parsed_report ∷ []) 50 report_parses ((100, refl), tt) refl

abbrev buffer_cursor : Cursor
buffer_cursor = record {
  description = some ("target_xml" ∷ []);
  rows = (Scalar.text "<RingBufferTarget/>" ∷ []) ∷ [];
}

-- A source with the ring buffer.
abbrev buffered : Outside
buffered = record outside { parsers = parsers; source_of = λ instance' query. ok buffer_cursor }

abbrev deadlocks : Collector
deadlocks = collector parsers (context none) Task.deadlocks

buffer_fetched : deadlocks.fetch_rows (execute (buffered.source_of "SQL1")) ≡ ok (buffer_row ∷ [])
unfolding execute sql_observability.Collector.Fetch.fetch_once
buffer_fetched = refl

run_collector-returns_example :
    (out : List Row) × (deadlocks.transform (buffer_row ∷ []) ≡ ok out)
    × ((run_collector (world none) buffered config Task.deadlocks false deadlocks "SQL1" fresh).0
        ≡ ok (length out))
unfolding sql_observability.Py.Text.replace sql_observability.Py.Xml.below
run_collector-returns_example =
    run_collector-returns (world none) buffered config Task.deadlocks false (context none) "SQL1"
      (buffer_row ∷ []) fresh (λ n. refl) buffer_fetched tt
      (
        (
          "<RingBufferTarget/>",
          ring_buffer,
          refl,
          refl,
          (
            (
              deadlock,
              ("2024-05-01T10:00:00Z", 100, refl, refl),
              refl,
              (("p1", refl), tt),
              (inr (pos 55, refl), tt),
            ),
            tt,
          ),
        ),
        tt,
      )

one_report_parses : parse_one_deadlock parsers report ≡ ok parsed_report
unfolding parse_one_deadlock
one_report_parses = refl

parse_one_deadlock-IsReported_example :
    (graph : Element) × (victim_ids : List String) × (find_first
        ("data" ∷ "value" ∷ "deadlock" ∷ [])
        report
      ≡ some graph)
    × (map (λ v. get_attrib v "id") (findall ("victim-list" ∷ "victimProcess" ∷ []) graph)
        ≡ map some victim_ids)
    × IsReported parsers victim_ids
        (findall ("process-list" ∷ "process" ∷ []) graph)
        (row_of (context none) parsed_report)
parse_one_deadlock-IsReported_example =
    parse_one_deadlock-IsReported parsers (context none) report parsed_report one_report_parses
