-- ===== src/Flow/Timestamps/Fills.antt =====
-- What `SyncMissingTimeStamps` fills in.
use flowpipeline.Base.{ℕ, ◌≡◌, ◌==◌, List, [], ◌∷◌, if◌then◌else◌, arith}
use flowpipeline.Flow.{Flow}
use flowpipeline.Flow.Timestamps.{
  Factor, nano, micro, milli, kilo, mega, giga, fill_time_if_empty,
  fill_time_if_empty_with_fallback, sync_missing_time_stamps,
}

-- The first of some times that is not zero, or zero.
abbrev pub first_set : List ℕ → ℕ
first_set [] = 0
first_set (t ∷ times) = if t == 0 then first_set times else t

module _ (scale : Factor → ℕ → ℕ) where
  -- A time in another unit, if there is one.
  abbrev pub converted : Factor → ℕ → ℕ
  converted factor t = if t == 0 then 0 else scale factor t

  -- A time in seconds, milliseconds and nanoseconds, before and after it is completed.
  abbrev pub Completes : ℕ × ℕ × ℕ → ℕ × ℕ × ℕ → Type 0
  Completes (s, ms, ns) (s', ms', ns') =
      (s' ≡ first_set (s ∷ converted nano ns ∷ converted milli ms ∷ []))
      × (ms' ≡ first_set (ms ∷ converted micro ns ∷ converted kilo s' ∷ []))
      × (ns' ≡ first_set (ns ∷ converted mega ms' ∷ converted giga s' ∷ []))

  -- The reception has seconds and nanoseconds only.
  abbrev pub Receives : ℕ × ℕ → ℕ × ℕ → Type 0
  Receives (s, ns) (s', ns') =
      (s' ≡ first_set (s ∷ converted nano ns ∷ []))
      × (ns' ≡ first_set (ns ∷ converted giga s' ∷ []))

  abbrev pub start_of : Flow → ℕ × ℕ × ℕ
  start_of flow = (flow.time_flow_start, flow.time_flow_start_ms, flow.time_flow_start_ns)

  abbrev pub end_of : Flow → ℕ × ℕ × ℕ
  end_of flow = (flow.time_flow_end, flow.time_flow_end_ms, flow.time_flow_end_ns)

  abbrev pub reception_of : Flow → ℕ × ℕ
  reception_of flow = (flow.time_received, flow.time_received_ns)

  fill_lem :
      (t u : ℕ) (f : Factor) → fill_time_if_empty scale t u f ≡ first_set (t ∷ converted f u ∷ [])
  unfolding fill_time_if_empty
  fill_lem t u f = ground arith

  fill_with_fallback_lem :
      (t u : ℕ) (f : Factor) (v : ℕ) (g : Factor)
      → fill_time_if_empty_with_fallback scale t u f v g
        ≡ first_set (t ∷ converted f u ∷ converted g v ∷ [])
  unfolding fill_time_if_empty_with_fallback fill_time_if_empty
  fill_with_fallback_lem t u f v g = ground arith

  completed-Completes :
      (s ms ns : ℕ)
      → let fill = fill_time_if_empty_with_fallback scale in
        let s' = fill s ns nano ms milli in
        let ms' = fill ms ns micro s' kilo in
        Completes (s, ms, ns) (s', ms', fill ns ms' mega s' giga)
  completed-Completes s ms ns =
      let fill = fill_time_if_empty_with_fallback scale in
      let s' = fill s ns nano ms milli in
      let ms' = fill ms ns micro s' kilo in
      (
        fill_with_fallback_lem s ns nano ms milli,
        fill_with_fallback_lem ms ns micro s' kilo,
        fill_with_fallback_lem ns ms' mega s' giga,
      )

  -- Of any flow, each of the three units of its start and of its end is the first that is set of:
  -- the unit itself; for the seconds, the scaled nanoseconds, then the scaled milliseconds; for the
  -- milliseconds, the scaled nanoseconds, then the scaled new seconds; for the nanoseconds, the
  -- scaled new milliseconds, then the scaled new seconds. Of the reception, seconds and
  -- nanoseconds are made of each other.
  pub sync_fills :
      (flow : Flow)
      → let synced = sync_missing_time_stamps scale flow in
        Completes (start_of flow) (start_of synced)
        × Completes (end_of flow) (end_of synced)
        × Receives (reception_of flow) (reception_of synced)
  unfolding sync_missing_time_stamps
  sync_fills flow = (
    completed-Completes flow.time_flow_start flow.time_flow_start_ms flow.time_flow_start_ns,
    completed-Completes flow.time_flow_end flow.time_flow_end_ms flow.time_flow_end_ns,
    (
      fill_lem flow.time_received flow.time_received_ns nano,
      fill_lem flow.time_received_ns
          (fill_time_if_empty scale flow.time_received flow.time_received_ns nano) giga,
    ),
  )
