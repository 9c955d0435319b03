-- ===== src/Pipeline/Wiring.antt =====
-- How `New` connects the segments.
use flowpipeline.Base.{
  ℕ, suc, ◌+◌, ◌<◌, Bool, true, false, List, [], ◌∷◌, Option, none, some, map, length, ◌≡◌, refl,
  arith, All, ◌>>=◌, ap, sym,
}
use flowpipeline.Pipeline.{
  BaseSegment, Segment, single, parallelized, Pipeline, rewire_base, rewire, wire, wired, pass, new,
}

-- The segment, or each one that it runs in parallel, reads from `i` and sends on `o`.
abbrev Connects : ℕ → ℕ → BaseSegment → Type 0
Connects i o s = (s.input ≡ some i) × (s.output ≡ some o)

abbrev pub HasChannels : ℕ → ℕ → Segment → Type 0
HasChannels i o (single s) = Connects i o s
HasChannels i o (parallelized nested) = All (Connects i o) nested

-- Each segment reads what the one before it sends, from the channel `i` on.
abbrev pub IsChain : ℕ → List Segment → Type 0
IsChain i [] = Unit
IsChain i (s ∷ segments) = HasChannels i (i + 1) s × IsChain (i + 1) segments

abbrev pub any_nil : List (Option Segment) → Bool
any_nil [] = false
any_nil (none ∷ segments) = true
any_nil (some s ∷ segments) = any_nil segments

rewire-HasChannels : (i o : ℕ) (s : Segment) → HasChannels i o (rewire i o s)
unfolding rewire rewire_base
rewire-HasChannels i o (single s) = (refl, refl)
rewire-HasChannels i o (parallelized nested) = all nested
  where
    all : (nested : List BaseSegment) → All (Connects i o) (map (rewire_base i o) nested)
    all [] = tt
    all (s ∷ nested) = ((refl, refl), all nested)

abbrev Chained : ℕ → List (Option Segment) → Option (List Segment) → Type 0
Chained i segments none = any_nil segments ≡ true
Chained i segments (some l) =
    (any_nil segments ≡ false) × (length l ≡ length segments) × IsChain i l

wire-Chained : (i : ℕ) (segments : List (Option Segment)) → Chained i segments (wire i segments)
unfolding wire
wire-Chained i [] = (refl, refl, tt)
wire-Chained i (none ∷ segments) = refl
wire-Chained i (some s ∷ segments) = more (wire (i + 1) segments) (wire-Chained (i + 1) segments)
  where
    more :
        (result : Option (List Segment))
        → Chained (i + 1) segments result
        → Chained i (some s ∷ segments) (result >>= λ rest. some (rewire i (i + 1) s ∷ rest))
    more none h = h
    more (some l) (h, n, c) = (h, ap suc n, (rewire-HasChannels i (i + 1) s, c))

-- What `New` returns for the segments: nil exactly if one of them is nil, and else the chain.
abbrev pub IsPipelineOf : List (Option Segment) → Option Pipeline → Type 0
IsPipelineOf segments none = any_nil segments ≡ true
IsPipelineOf segments (some p) =
    (any_nil segments ≡ false)
    × (p.input ≡ 0)
    × (p.output ≡ length p.segment_list)
    × (0 < length p.segment_list)
    × IsChain 0 p.segment_list

wired-IsPipelineOf :
    (segments : List (Option Segment))
    → 0 < length segments
    → IsPipelineOf segments (wired segments)
unfolding wired
wired-IsPipelineOf segments h = connect (wire 0 segments) (wire-Chained 0 segments)
  where
    connect :
        (result : Option (List Segment))
        → Chained 0 segments result
        → IsPipelineOf segments (
            result >>= λ l.
            some
              (record { input = 0; output = length segments; has_drop = false; segment_list = l }))
    connect none c = c
    connect (some l) (e, n, c) = (e, refl, sym n, omega (arith, n, h), c)

-- `New` returns nil exactly if one of the segments is nil. Else the pipeline has a segment at
-- least, its input is the channel that the first segment reads, each further segment reads the
-- channel that the one before it sends on, and the output is the channel of the last.
pub new-IsPipelineOf : (segments : List (Option Segment)) → IsPipelineOf segments (new segments)
unfolding new
new-IsPipelineOf [] = wired-IsPipelineOf (some (single pass) ∷ []) (omega arith)
new-IsPipelineOf (s ∷ segments) = wired-IsPipelineOf (s ∷ segments) (omega arith)
