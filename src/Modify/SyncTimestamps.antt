-- ===== src/Modify/SyncTimestamps.antt =====
-- segments/modify/sync_timestamps/sync_timestamps.go. Float arithmetic is the parameter `scale`.
use flowpipeline.Base.{ℕ, List}
use flowpipeline.Flow.{Flow}
use flowpipeline.Flow.Timestamps.{Factor, sync_missing_time_stamps}
use flowpipeline.Segment.{run_map}

unfoldable pub run : (Factor → ℕ → ℕ) → List Flow → List Flow
run scale = run_map (sync_missing_time_stamps scale)
