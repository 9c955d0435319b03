-- ===== src/Segment.antt =====
-- segments/segments.go and segments/filter_segment.go: what a segment sends. A `Run` loop takes
-- each flow from `In`, and sends flows on `Out` and, if a filter's drops are subscribed to, on
-- `Drops`; it is a state with a step for each flow, and closes `Out` when `In` is closed.
pub mod Filters
pub mod Chooses
use flowpipeline.Base.{Bool, true, false, List, [], ◌∷◌, ◌++◌, if◌then◌else◌}
use flowpipeline.Flow.{Flow}

pub record Sent : Type 0 where
  pub out : List Flow
  pub drops : List Flow

abbrev pub nothing : Sent
nothing = record { out = []; drops = [] }

-- `segment.Out <- msg`.
abbrev pub forward : Flow → Sent
forward msg = record { out = msg ∷ []; drops = [] }

-- `if segment.Drops != nil { segment.Drops <- msg }`.
abbrev pub discard : Bool → Flow → Sent
discard subscribed msg = record { out = []; drops = if subscribed then msg ∷ [] else [] }

-- What is sent first, then what is sent later.
abbrev pub and_then : Sent → Sent → Sent
and_then a b = record { out = a.out ++ b.out; drops = a.drops ++ b.drops }

-- `for msg := range segment.In { … }`.
module _ {ℓ} {S : Type ℓ} (step : S → Flow → S × Sent) where
  unfoldable pub run : S → List Flow → S × Sent
  run s [] = (s, nothing)
  run s (msg ∷ rest) =
      let (s', sent) = step s msg in let (last, later) = run s' rest in (last, and_then sent later)

-- A loop with no state that sends each flow on, changed by `f`.
unfoldable pub run_map : (Flow → Flow) → List Flow → List Flow
run_map f [] = []
run_map f (msg ∷ rest) = f msg ∷ run_map f rest
