-- ===== src/Elephant/Rampup.antt =====
-- Which flows the segment passes.
use flowpipeline.Base.{
  ℕ, ◌+◌, ◌*◌, ◌/◌, ◌%◌, ◌≤◌, ◌<◌, ◌≡◌, ◌≢◌, ◌⊎◌, refl, Bool, true, false, ◌&&◌, ◌||◌, List, [],
  ◌∷◌, String, str_eq, ltb, ◌==◌, sub64, arith, if◌then◌else◌,
}
use flowpipeline.Flow.{Flow}
use flowpipeline.Segment.{Sent, nothing, forward, discard, and_then}
use flowpipeline.Elephant.{Elephant, aspect_of, State, start, threshold, step, run}

-- The clock does not go back.
abbrev pub Monotone : ℕ → List (Flow × ℕ) → Type 0
Monotone t [] = Unit
Monotone t ((msg, now) ∷ rest) = (t ≤ now) × Monotone now rest

-- The aspect that the option names: a number of bytes or packets, or bits or packets per second,
-- where no second counts as one.
abbrev seconds : Flow → ℕ
seconds msg = sub64 msg.time_flow_end msg.time_flow_start

abbrev per_second : Flow → ℕ → ℕ
per_second msg n = n / (if seconds msg == 0 then 1 else seconds msg)

unfoldable pub measure : String → Flow → ℕ
measure aspect msg =
    if str_eq aspect "bytes"
    then msg.bytes
    else if str_eq aspect "bps"
    then per_second msg (msg.bytes * 8 % 18446744073709551616)
    else if str_eq aspect "pps"
    then per_second msg msg.packets
    else if str_eq aspect "packets"
    then msg.packets
    else 0

measure_lem : (aspect : String) (msg : Flow) → aspect_of aspect msg ≡ measure aspect msg
unfolding aspect_of measure
measure_lem aspect msg = refl

-- The segment was started at `began`, and its ramp-up, in seconds, is over.
abbrev pub is_over : Elephant → ℕ → ℕ → Bool
is_over segment began now =
    (segment.rampup_time == 0) || ltb (began + segment.rampup_time * 1000000000) now

module _ {Float Window : Type 0} (float64 : ℕ → Float) (at_least : Float → Float → Bool)
    (append : ℕ → Float → Window → Window) (percentile fast_percentile : ℕ → Window → Float) where
  -- What is to be sent: a flow passes if it comes after the end of the ramp-up and its aspect
  -- reaches the percentile of the window of all flows up to it.
  abbrev pub expected : Elephant → Bool → ℕ → Window → List (Flow × ℕ) → Sent
  expected segment subscribed began window [] = nothing
  expected segment subscribed began window ((msg, now) ∷ rest) =
      let aspect = float64 (measure segment.aspect msg) in
      let window' = append now aspect window in
      let limit = if segment.exact then percentile now window' else fast_percentile now window' in
      and_then
        (if is_over segment began now && at_least aspect limit
          then forward msg
          else discard subscribed msg)
        (expected segment subscribed began window' rest)

  -- The flag of the ramp-up agrees with the time.
  abbrev Phase :
      Elephant → ℕ → State float64 at_least append percentile fast_percentile → ℕ → Type 0
  Phase segment began s t =
      ((s.in_rampup ≡ true)
        × (s.rampup_end ≡ began + segment.rampup_time * 1000000000)
        × (segment.rampup_time ≢ 0))
      ⊎ ((s.in_rampup ≡ false)
          × ((segment.rampup_time ≡ 0) ⊎ (began + segment.rampup_time * 1000000000 < t)))

  run-expected :
      (segment : Elephant) (subscribed : Bool) (began : ℕ)
      (s : State float64 at_least append percentile fast_percentile) (t : ℕ)
      (received : List (Flow × ℕ))
      → Phase segment began s t
      → Monotone t received
      → (run float64 at_least append percentile fast_percentile segment subscribed s received).1
        ≡ expected segment subscribed began s.window received
  unfolding run step threshold
  run-expected segment subscribed began s t [] p m = refl
  run-expected segment subscribed began s t ((msg, now) ∷ rest) p m =
      let step' =
        step float64 at_least append percentile fast_percentile segment subscribed s (msg, now) in
      ground (
        arith,
        measure_lem segment.aspect msg,
        run-expected segment subscribed began step'.0 now rest,
      )

  -- Started at `now`, and if the clock does not go back, the segment passes exactly the flows that
  -- come after its ramp-up (of the configured number of seconds, 10^9 nanoseconds each; without a
  -- ramp-up, all) and whose aspect (bytes, packets, 8 times the bytes per second or packets per
  -- second) reaches the percentile, exact or fast as configured, of the window of all flows up to
  -- it, those of the ramp-up included. It drops all others.
  pub run_passes :
      (segment : Elephant) (subscribed : Bool) (now : ℕ) (window : Window)
      (received : List (Flow × ℕ))
      → Monotone now received
      → let s = start float64 at_least append percentile fast_percentile segment now window in
        (run float64 at_least append percentile fast_percentile segment subscribed s received).1
        ≡ expected segment subscribed now window received
  unfolding start
  run_passes segment subscribed now window received m =
      let s = start float64 at_least append percentile fast_percentile segment now window in
      ground (arith, run-expected segment subscribed now s now received)
