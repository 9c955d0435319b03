-- ===== src/FlowFilter/Run.antt =====
-- flowfilter.go: the segment. `parse` is the parser, and `walk` its `Visit`.
pub mod Selects
pub mod Stale
pub mod Refuses
use flowpipeline.Base.{Bool, true, false, Option, none, some, List, String, if◌then◌else◌}
use flowpipeline.Flow.{Flow, empty_flow}
use flowpipeline.Segment
use flowpipeline.Segment.{Sent, forward, discard}
use flowpipeline.FlowFilter.Nodes.{Expression, Status, fine, bad_range, nil_pointer}
use flowpipeline.FlowFilter.Walk.{Walk, check_flow}

-- What `New` does: it returns a segment or nil, or panics on a nil pointer.
pub data Created {ℓ} (A : Type ℓ) : Type ℓ where
  segment : A → Created A
  refused : Created A
  panicked : Created A

module _ (parse : String → Option Expression) (walk : Walk) where
  -- The expression is checked against an empty flow, and keeps the results of that check.
  checked : Option Expression → Created Expression
  checked none = refused
  checked (some expression) =
      let (expression', match, status) = check_flow walk expression empty_flow in
      elim status [ fine ↦ segment expression' | bad_range ↦ refused | nil_pointer ↦ panicked ]

  unfoldable pub new : String → Created Expression
  unfolding checked
  new filter = checked (parse filter)

module _ (walk : Walk) (subscribed : Bool) where
  -- The error of `CheckFlow` is dropped.
  unfoldable pub step : Expression → Flow → Expression × Sent
  step expression msg =
      let (expression', match, status) = check_flow walk expression msg in
      (expression', if match then forward msg else discard subscribed msg)

  unfoldable pub run : Expression → List Flow → Expression × Sent
  run = Segment.run step
