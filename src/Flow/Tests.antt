-- ===== src/Flow/Tests.antt =====
-- A flow at concrete inputs.
use flowpipeline.Base.{ℕ, ◌*◌, ◌/◌}
use flowpipeline.Flow.{Flow, empty_flow}
use flowpipeline.Flow.Timestamps.{
  Factor, nano, micro, milli, kilo, mega, giga, sync_missing_time_stamps,
}
use flowpipeline.Flow.Timestamps.Fills.{
  Completes, Receives, start_of, end_of, reception_of, sync_fills,
}

-- The factors on whole numbers.
abbrev scale : Factor → ℕ → ℕ
scale nano t = t / 1000000000
scale micro t = t / 1000000
scale milli t = t / 1000
scale kilo t = t * 1000
scale mega t = t * 1000000
scale giga t = t * 1000000000

abbrev timed : Flow
timed = record empty_flow {
  time_flow_start = 1700000000;
  time_flow_end = 1700000060;
  time_flow_end_ms = 1700000060123;
  time_received = 1700000061;
  forwarding_status = 129;
}

sync_fills_example :
    let synced = sync_missing_time_stamps scale timed in
    Completes scale (start_of scale timed) (start_of scale synced)
    × Completes scale (end_of scale timed) (end_of scale synced)
    × Receives scale (reception_of scale timed) (reception_of scale synced)
sync_fills_example = sync_fills scale timed
