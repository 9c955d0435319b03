-- ===== src/Flow/Timestamps.antt =====
-- `SyncMissingTimeStamps` of pb/legacyconverter.go. The source converts a time by
-- `uint64(math.Round(float64(t) * factor))`; float arithmetic is the parameter `scale`.
pub mod Fills
use flowpipeline.Base.{ℕ, ◌≡◌, ◌≢◌, ◌==◌, if◌then◌else◌, arith, ◌≤◌, refl}
use flowpipeline.Flow.{Flow}

-- The factors that the source multiplies by: 1e-9, 1e-6, 1e-3, 1e3, 1e6, 1e9.
pub data Factor : Type 0 where
  nano micro milli kilo mega giga : Factor

module _ (scale : Factor → ℕ → ℕ) where
  unfoldable pub fill_time_if_empty : ℕ → ℕ → Factor → ℕ
  fill_time_if_empty time1 time2 factor12 =
      if time1 == 0 then (if time2 == 0 then time1 else scale factor12 time2) else time1

  unfoldable pub fill_time_if_empty_with_fallback : ℕ → ℕ → Factor → ℕ → Factor → ℕ
  unfolding fill_time_if_empty
  fill_time_if_empty_with_fallback time1 time2 factor12 time3 factor13 =
      fill_time_if_empty (fill_time_if_empty time1 time2 factor12) time3 factor13

  unfoldable pub sync_missing_time_stamps : Flow → Flow
  unfolding fill_time_if_empty_with_fallback
  sync_missing_time_stamps flow =
      let end_s : ℕ =
        fill flow.time_flow_end flow.time_flow_end_ns nano flow.time_flow_end_ms milli in
      let end_ms : ℕ = fill flow.time_flow_end_ms flow.time_flow_end_ns micro end_s kilo in
      let end_ns : ℕ = fill flow.time_flow_end_ns end_ms mega end_s giga in
      let start_s : ℕ =
        fill flow.time_flow_start flow.time_flow_start_ns nano flow.time_flow_start_ms milli in
      let start_ms : ℕ = fill flow.time_flow_start_ms flow.time_flow_start_ns micro start_s kilo in
      let start_ns : ℕ = fill flow.time_flow_start_ns start_ms mega start_s giga in
      let received : ℕ = fill_time_if_empty flow.time_received flow.time_received_ns nano in
      let received_ns : ℕ = fill_time_if_empty flow.time_received_ns received giga in
      record flow {
        time_flow_end = end_s;
        time_flow_end_ms = end_ms;
        time_flow_end_ns = end_ns;
        time_flow_start = start_s;
        time_flow_start_ms = start_ms;
        time_flow_start_ns = start_ns;
        time_received = received;
        time_received_ns = received_ns;
      }
    where
      fill : ℕ → ℕ → Factor → ℕ → Factor → ℕ
      fill = fill_time_if_empty_with_fallback
