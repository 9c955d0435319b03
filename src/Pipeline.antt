-- ===== src/Pipeline.antt =====
-- pipeline/pipeline.go, pipeline/pipeline_initialization.go and segments/parallelized_segment.go: how
-- segments are chained by channels, and where their drops go. A channel is the number of its
-- creation; a field for a channel is none where it is nil.
pub mod Wiring
pub mod Drops
pub mod Registry
mod Tests
use flowpipeline.Base.{
  ℕ, zero, suc, String, ◌+◌, Bool, true, false, List, [], ◌∷◌, ◌++◌, Option, none, some, map,
  length, leb, ◌==◌, if◌then◌else◌, ◌>>=◌, replicate,
}
use flowpipeline.Flow.{Flow}
use flowpipeline.Segment.{Sent}

-- A segment that embeds `BaseSegment`, or, where `implements_filter`, `BaseFilterSegment`;
-- `messages` is its loop: what it sends, given whether its drops are subscribed to.
pub record BaseSegment : Type 0 where
  pub input : Option ℕ
  pub output : Option ℕ
  pub subscribed : Bool  -- `Drops != nil`
  pub implements_filter : Bool
  pub messages : Bool → List Flow → Sent

pub data Segment : Type 0 where
  single : BaseSegment → Segment
  parallelized : List BaseSegment → Segment

-- `Rewire` of the two.
unfoldable pub rewire_base : ℕ → ℕ → BaseSegment → BaseSegment
rewire_base i o s = record s { input = some i; output = some o }

unfoldable pub rewire : ℕ → ℕ → Segment → Segment
rewire i o (single s) = single (rewire_base i o s)
rewire i o (parallelized nested) = parallelized (map (rewire_base i o) nested)

-- `BaseFilterSegment.SubscribeDrops`, behind the type assertion.
unfoldable pub subscribe_base : BaseSegment → BaseSegment
subscribe_base s = record s { subscribed = if s.implements_filter then true else s.subscribed }

-- `segment.(segments.FilterSegment)` and the call of `SubscribeDrops`. The method of a
-- `ParallelizedSegment` takes a `chan`, that of the interface a `chan<-`: the assertion fails.
unfoldable pub subscribe_drops : Segment → Segment
unfolding subscribe_base
subscribe_drops (single s) = single (subscribe_base s)
subscribe_drops (parallelized nested) = parallelized nested

pub record Pipeline : Type 0 where
  pub input : ℕ
  pub output : ℕ
  pub has_drop : Bool  -- `Drop != nil`
  pub segment_list : List Segment

-- The loop of `New`: none where a segment is nil.
unfoldable pub wire : ℕ → List (Option Segment) → Option (List Segment)
wire i [] = some []
wire i (none ∷ segments) = none
wire i (some s ∷ segments) = wire (i + 1) segments >>= λ rest. some (rewire i (i + 1) s ∷ rest)

unfoldable pub wired : List (Option Segment) → Option Pipeline
wired segments = wire 0 segments >>= λ l.
    some (record { input = 0; output = length segments; has_drop = false; segment_list = l })

-- `&pass.Pass{}`: it sends each flow on.
abbrev pub pass : BaseSegment
pass = record {
  input = none;
  output = none;
  subscribed = false;
  implements_filter = false;
  messages = λ subscribed ms. record { out = ms; drops = [] };
}

unfoldable pub new : List (Option Segment) → Option Pipeline
new [] = wired (some (single pass) ∷ [])
new (s ∷ segments) = wired (s ∷ segments)

unfoldable pub get_drop : Pipeline → Pipeline
get_drop p =
    if p.has_drop
    then p
    else record p { has_drop = true; segment_list = map subscribe_drops p.segment_list }

-- A segment's name and configuration, and `Jobs`, of which a negative number is 0 here.
pub record SegmentRepr : Type 0 where
  pub name : String
  pub config : List (String × String)
  pub jobs : ℕ

-- `SegmentsFromRepr`, for `LookupSegment`, the expansion of a configuration, and what `New` of the
-- template found makes of it; the outer Option is none where `log.Fatal` ends the program.
module _ {Template : Type 0} (new_segment : Template → SegmentRepr → Option BaseSegment) where
  -- The loop over `Jobs`.
  unfoldable pub add_segments : Template → SegmentRepr → ℕ → Option (List BaseSegment)
  add_segments t r zero = some []
  add_segments t r (suc n) =
      new_segment t r >>= λ s. (add_segments t r n >>= λ rest. some (s ∷ rest))

  unfoldable pub segment_from_repr : Template → SegmentRepr → Option (Option Segment)
  segment_from_repr t r =
      if leb r.jobs 1
      then some (elim (new_segment t r) [ none ↦ none | some s ↦ some (single s) ])
      else (add_segments t r r.jobs >>= λ nested. some (some (parallelized nested)))

  unfoldable pub segments_from_repr :
      (String → Option Template) → List SegmentRepr → Option (List (Option Segment))
  segments_from_repr lookup_segment [] = some []
  segments_from_repr lookup_segment (r ∷ rs) = lookup_segment r.name >>= λ t.
      (segment_from_repr t r >>= λ s.
      (segments_from_repr lookup_segment rs >>= λ rest. some (s ∷ rest)))

-- What is sent on each channel of single segments in a run to the end, and what is sent on `Drop`.
-- A segment reads what its predecessors sent on its channel.
unfoldable pub send : Option ℕ → List Flow → (Option ℕ → List Flow) → Option ℕ → List Flow
send none ms sent c = sent c
send (some o) ms sent none = sent none
send (some o) ms sent (some c) = if o == c then sent (some c) ++ ms else sent (some c)

unfoldable pub carry :
    List BaseSegment → (Option ℕ → List Flow) → List Flow → (Option ℕ → List Flow) × List Flow
unfolding send
carry [] sent dropped = (sent, dropped)
carry (s ∷ segments) sent dropped =
    let m = s.messages s.subscribed (sent s.input) in
    carry segments (send s.output m.out sent) (dropped ++ m.drops)

-- The segments, where none is parallelized.
unfoldable pub singles : List Segment → Option (List BaseSegment)
singles [] = some []
singles (single s ∷ segments) = singles segments >>= λ rest. some (s ∷ rest)
singles (parallelized nested ∷ segments) = none

-- What a pipeline of such segments sends on `Out` and on `Drop` for the flows sent on `In`.
unfoldable pub traffic : Pipeline → List Flow → Option Sent
unfolding send carry singles
traffic p ms = singles p.segment_list >>= λ l.
    let (sent, dropped) = carry l (send (some p.input) ms (λ c. [])) [] in
    some (record { out = sent (some p.output); drops = dropped })
