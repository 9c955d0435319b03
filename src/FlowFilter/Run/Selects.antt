-- ===== src/FlowFilter/Run/Selects.antt =====
-- Which flows the segment passes.
use flowpipeline.Base.{Bool, List, [], ◌∷◌, if◌then◌else◌}
use flowpipeline.Flow.{Flow}
use flowpipeline.Segment
use flowpipeline.Segment.{Sent, forward, discard, and_then}
use flowpipeline.FlowFilter.Walk.{Walk}

abbrev pub select : (Flow → Bool) → List Flow → List Flow
select test [] = []
select test (m ∷ ms) = if test m then m ∷ select test ms else select test ms
