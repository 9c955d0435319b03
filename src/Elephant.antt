-- ===== src/Elephant.antt =====
-- segments/filter/elephant/elephant.go: `Run`. The sliding window (package rolling) and floats are
-- parameters: `float64` converts a number, `at_least` is `>=`, `append` adds a value to the window,
-- and the two percentiles, at the configured level, are the reductions of the window. The window
-- reads the clock too: they are given the time at which the flow is handled.
pub mod Rampup
pub mod Options
mod Tests
use flowpipeline.Base.{
  ℕ, ◌+◌, ◌*◌, ◌/◌, Bool, true, false, ◌&&◌, not, List, [], ◌∷◌, String, str_eq, ltb, ◌==◌, sub64,
  mul64, if◌then◌else◌,
}
use flowpipeline.Flow.{Flow}
use flowpipeline.Segment.{Sent, nothing, forward, discard, and_then}

pub record Elephant : Type 0 where
  pub aspect : String
  pub exact : Bool
  pub rampup_time : ℕ  -- in seconds; its nanoseconds fit into a duration

-- The number of which the aspect of a flow is made.
abbrev pub duration_of : Flow → ℕ
duration_of msg =
    let duration = sub64 msg.time_flow_end msg.time_flow_start in
    if duration == 0 then 1 else duration

-- An aspect that no case names leaves the zero value.
unfoldable pub aspect_of : String → Flow → ℕ
aspect_of aspect msg =
    if str_eq aspect "bytes"
    then msg.bytes
    else if str_eq aspect "bps"
    then mul64 msg.bytes 8 / duration_of msg
    else if str_eq aspect "pps"
    then msg.packets / duration_of msg
    else if str_eq aspect "packets"
    then msg.packets
    else 0

module _ {Float Window : Type 0} (float64 : ℕ → Float) (at_least : Float → Float → Bool)
    (append : ℕ → Float → Window → Window) (percentile fast_percentile : ℕ → Window → Float) where
  pub record State : Type 0 where
    pub in_rampup : Bool
    pub rampup_end : ℕ
    pub window : Window

  -- The variables before the loop, for the time in nanoseconds and a new window.
  unfoldable pub start : Elephant → ℕ → Window → State
  start segment now window =
      if ltb 0 segment.rampup_time
      then record {
        in_rampup = true;
        rampup_end = now + segment.rampup_time * 1000000000;
        window = window;
      }
      else record { in_rampup = false; rampup_end = 0; window = window }

  unfoldable pub threshold : Elephant → ℕ → Window → Float
  threshold segment now window =
      if segment.exact then percentile now window else fast_percentile now window

  -- One flow, with the time that `time.Now` returns.
  unfoldable pub step : Elephant → Bool → State → Flow × ℕ → State × Sent
  step segment subscribed s (msg, now) =
      let aspect = float64 (aspect_of segment.aspect msg) in
      let window : Window = append now aspect s.window in
      let in_rampup : Bool = if s.in_rampup && ltb s.rampup_end now then false else s.in_rampup in
      (
        record s { in_rampup = in_rampup; window = window },
        if not in_rampup && at_least aspect (threshold segment now window)
            then forward msg
            else discard subscribed msg,
      )

  unfoldable pub run : Elephant → Bool → State → List (Flow × ℕ) → State × Sent
  run segment subscribed s [] = (s, nothing)
  run segment subscribed s (received ∷ rest) =
      let (s', sent) = step segment subscribed s received in
      let (last, later) = run segment subscribed s' rest in (last, and_then sent later)
