-- ===== src/Toptalkers/Tests.antt =====
-- The toptalkers database at concrete inputs.
use mathlib.Core.List.{Perm}
use flowpipeline.Base.{
  ℤ, pos, Option, ◌%◌, u64_mod, ℕ, ◌*◌, ◌/◌, ◌≡◌, refl, true, false, ◌&&◌, [], ◌∷◌, ◌++◌, none, inl,
  some, String, str_eq, take, arith, ltb, mul64, if◌then◌else◌, str_eq_iff,
}
use flowpipeline.Flow.{Bytes, Flow, empty_flow}
use flowpipeline.Segment.{forward, discard}
use flowpipeline.Toptalkers.Record.{Record, get_metrics, append, tick, is_empty}
use flowpipeline.Toptalkers.Record.Valid.{IsValid}
use flowpipeline.Toptalkers.Record.Window.{
  windows, append_windows, shift_windows, windows-append, windows-tick,
}
use flowpipeline.Toptalkers.Record.Threshold.{total, traffic, above_threshold-tick}
use flowpipeline.Toptalkers.Database.{
  MetricsParams, Database, new_database, find, record_key, get_typed_record, append_stored,
  append_typed, clock, cleanup,
}
use flowpipeline.Toptalkers.Database.Valid.{IsWellFormed}
use flowpipeline.Toptalkers.Database.Entries.{record_or_new, find-append_typed}
use flowpipeline.Toptalkers.Database.Cleanup.{find-cleanup}
use flowpipeline.Toptalkers.Database.Race.{append_stored-lost}
use flowpipeline.Toptalkers.Database.Reaches.{
  Reaches, starts, looks_up, appends, ticks, cleans, Reaches-IsWellFormed,
}
use flowpipeline.Toptalkers.Params.{
  parse_prometheus_config, parse_buckets, parse_threshold, parse_relevant_address,
  init_default_prometheus_metric_params, new, init_default_prometheus_params,
}
use flowpipeline.Toptalkers.Params.Valid.{IsUsable, new-IsUsable}
use flowpipeline.Toptalkers.Record.Reported.{get_metrics-windows}
use flowpipeline.Toptalkers.Metrics.{keys_of, step, run}
use flowpipeline.Toptalkers.Metrics.Forwards.{any_above, step-sent, run-perm, run-irrelevant}

-- A division for the average of the source.
abbrev average : ℕ → ℕ → ℕ
average sum n = sum / n

-- A ring of three buckets, the pointer at its last.
abbrev busy : Record
busy = record {
  fwd_bytes = 10 ∷ 20 ∷ 30 ∷ [];
  fwd_packets = 1 ∷ 2 ∷ 3 ∷ [];
  drop_bytes = 5 ∷ 0 ∷ 0 ∷ [];
  drop_packets = 1 ∷ 0 ∷ 0 ∷ [];
  capacity = 3;
  pointer = 2;
  above_threshold = true;
  address = "a";
}

abbrev idle : Record
idle = record busy { fwd_packets = 0 ∷ 0 ∷ 0 ∷ []; drop_packets = 0 ∷ 0 ∷ 0 ∷ [] }

busy-IsValid : IsValid busy
busy-IsValid = ground arith

idle-is_empty : is_empty idle ≡ true
unfolding is_empty
idle-is_empty = refl

busy-is_empty : is_empty busy ≡ false
unfolding is_empty
busy-is_empty = refl

windows-append_example : windows (append busy 7 1 true) ≡ append_windows (windows busy) 7 1 true
windows-append_example = windows-append busy 7 1 true busy-IsValid

windows-tick_example : windows (tick average busy 2 60 0 0) ≡ shift_windows (windows busy)
windows-tick_example = windows-tick average busy 2 60 0 0 busy-IsValid

above_threshold-tick_example : (tick average busy 2 1 100 1).above_threshold ≡ (
    let w = windows busy in
    let bytes = traffic (take 2 w.fwd_bytes) (take 2 w.drop_bytes) in
    let packets = traffic (take 2 w.fwd_packets) (take 2 w.drop_packets) in
    ltb 100 (average (mul64 bytes 8) (1 * 2)) && ltb 1 (average packets (1 * 2)))
above_threshold-tick_example =
    above_threshold-tick average busy 2 1 100 1 busy-IsValid (ground arith) (omega arith)

abbrev params : MetricsParams
params = record {
  traffic_type = "all";
  buckets = 60;
  threshold_buckets = 2;
  report_buckets = 3;
  bucket_duration = 1;
  threshold_bps = 100;
  threshold_pps = 1;
  relevant_address = "both";
  cleanup_window_sizes = 5;
}

abbrev busy_database : Database
busy_database = record {
  database = (record_key "" "a", busy) ∷ (record_key "" "b", idle) ∷ [];
  traffic_type = "all";
  threshold_bps = 100;
  threshold_pps = 1;
  buckets = 60;
  bucket_duration = 1;
  report_buckets = 3;
  threshold_buckets = 2;
  cleanup_counter = 1;
  cleanup_window_sizes = 5;
  db_size = 2;
}

find-busy : find (record_key "" "a") busy_database.database ≡ some busy
unfolding find
find-busy = refl

find-c : find (record_key "" "c") busy_database.database ≡ none
unfolding find
find-c = refl

find-append_typed_example :
    find (record_key "" "a") (append_typed busy_database "" "a" 7 1 true).1.database ≡ (
      if str_eq (record_key "" "a") (record_key "" "a")
      then some (append (record_or_new busy_database "" "a") 7 1 true)
      else find (record_key "" "a") busy_database.database)
find-append_typed_example = find-append_typed busy_database "" "a" 7 1 true (record_key "" "a")

-- The round deletes: the idle record goes and the busy one stays.
find-cleanup_example : find (record_key "" "a") (cleanup busy_database).database ≡ some busy
find-cleanup_example =
    find-cleanup busy_database (record_key "" "a") busy 0 find-busy (omega arith)
      (inl (ground arith))

-- The counter of the cleanup is at 1: the next round deletes.
append_stored-lost_example :
    find
      (record_key "" "c")
      (append_stored
        (cleanup (get_typed_record busy_database "" "c").1)
        (record_key "" "c")
        7
        1
        true).database
    ≡ none
append_stored-lost_example = append_stored-lost busy_database "" "c" 7 1 true find-c refl

Reaches-IsWellFormed_example : IsWellFormed (
    append_stored
      (cleanup (clock average (get_typed_record (new_database params) "" "a").1))
      (record_key "" "a")
      7
      1
      true)
Reaches-IsWellFormed_example =
    Reaches-IsWellFormed average params (omega arith)
      (appends (record_key "" "a") 7 1 true (cleans (ticks (looks_up "" "a" starts))))

-- Texts for two addresses.
abbrev ip_string : Bytes → String
ip_string none = "a"
ip_string (some l) = "b"

abbrev from_a_to_b : Flow
from_a_to_b = record empty_flow { dst_addr = some (10 ∷ 0 ∷ 0 ∷ 1 ∷ []); bytes = 7; packets = 1 }

abbrev from_b_to_b : Flow
from_b_to_b = record from_a_to_b { src_addr = some (10 ∷ 0 ∷ 0 ∷ 1 ∷ []) }

step-sent_example : (step ip_string "both" true busy_database from_a_to_b).1 ≡ (
    if any_above busy_database (keys_of ip_string "both" from_a_to_b)
    then forward from_a_to_b
    else discard true from_a_to_b)
step-sent_example = step-sent ip_string "both" true busy_database from_a_to_b

run-perm_example :
    let sent = (run ip_string "source" true busy_database (from_a_to_b ∷ from_b_to_b ∷ [])).1 in
    Perm (sent.out ++ sent.drops) (from_a_to_b ∷ from_b_to_b ∷ [])
run-perm_example = run-perm ip_string "source" busy_database (from_a_to_b ∷ from_b_to_b ∷ [])

run-irrelevant_example :
    let sent = (run ip_string "connection" true busy_database (from_a_to_b ∷ [])).1 in
    (sent.out ≡ []) × (sent.drops ≡ from_a_to_b ∷ [])
run-irrelevant_example =
    run-irrelevant ip_string "connection" busy_database (from_a_to_b ∷ [])
      (ground (arith, str_eq_iff "connection" "source"))
      (ground (arith, str_eq_iff "connection" "destination"))
      (ground (arith, str_eq_iff "connection" "both"))

-- Rates as pairs of a count and a time.
abbrev divide : ℕ → ℕ → ℕ × ℕ
divide a b = (a, b)

get_metrics-windows_example :
    let w = windows busy in
    get_metrics divide busy 0 60 ≡ (
      divide (mul64 (total w.fwd_bytes % u64_mod) 8) (busy.capacity * 60),
      divide (total w.fwd_packets % u64_mod) (busy.capacity * 60),
      divide (mul64 (total w.drop_bytes % u64_mod) 8) (busy.capacity * 60),
      divide (total w.drop_packets % u64_mod) (busy.capacity * 60),
      busy.address,
    )
get_metrics-windows_example = get_metrics-windows divide busy 0 60 busy-IsValid (inl refl)

-- Parsers that know one number, and a configuration with a number of buckets.
abbrev parse_int : String → Option ℤ
parse_int s = if str_eq s "120" then some (pos 120) else none

abbrev parse_uint : String → Option ℕ
parse_uint s = none

abbrev config : String → String
config s = if str_eq s "buckets" then "120" else if str_eq s "relevantaddress" then "both" else ""

abbrev configured : MetricsParams
configured = record {
  traffic_type = "";
  buckets = 120;
  threshold_buckets = 60;
  report_buckets = 60;
  bucket_duration = 1;
  threshold_bps = 0;
  threshold_pps = 0;
  relevant_address = "both";
  cleanup_window_sizes = 5;
}

new-config : new parse_int parse_uint config ≡ some (configured, init_default_prometheus_params)
unfolding new parse_prometheus_config parse_buckets init_default_prometheus_metric_params
    parse_threshold parse_relevant_address init_default_prometheus_params
new-config = refl

new-IsUsable_example :
    IsUsable configured
    × ((average : ℕ → ℕ → ℕ) (db : Database) → Reaches average configured db → IsWellFormed db)
new-IsUsable_example =
    new-IsUsable parse_int parse_uint config configured init_default_prometheus_params new-config
