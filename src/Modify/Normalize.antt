-- ===== src/Modify/Normalize.antt =====
-- segments/modify/normalize/normalize.go.
use flowpipeline.Base.{
  ℕ, ◌%◌, ◌*◌, ◌<◌, List, [], ◌∷◌, Option, none, some, String, str_eq, ◌≡◌, arith, ltb, ◌==◌, not,
  mul64, u64_mod, if◌then◌else◌, All,
}
use flowpipeline.Flow.{Flow}
use flowpipeline.Segment.{run_map}

-- `New`: the fallback, for the parser `ParseUint(value, 10, 32)`.
unfoldable pub new : (String → Option ℕ) → String → ℕ
new parse_uint value =
    if not (str_eq value "") then elim (parse_uint value) [ none ↦ 0 | some n ↦ n ] else 0

module _ (fallback : ℕ) where
  unfoldable pub normalize : Flow → Flow
  normalize msg =
      if ltb 0 msg.sampling_rate
      then record msg {
        bytes = mul64 msg.bytes msg.sampling_rate;
        packets = mul64 msg.packets msg.sampling_rate;
        normalized = 1;
      }
      else if not (fallback == 0)
      then record msg {
        bytes = mul64 msg.bytes fallback;
        packets = mul64 msg.packets fallback;
        sampling_rate = fallback;
        normalized = 1;
      }
      else msg

  unfoldable pub run : List Flow → List Flow
  run = run_map normalize

  -- The rate that a flow is normalized by: its own, or else the fallback.
  abbrev pub rate : Flow → ℕ
  rate msg = if msg.sampling_rate == 0 then fallback else msg.sampling_rate

  -- A flow with a rate, its own or the fallback, gets its bytes and packets multiplied by that
  -- rate (modulo 2^64), is marked as normalized and carries the rate; without a rate it is left
  -- as it is. All other fields stay.
  pub normalize_lem :
      (msg : Flow)
      → normalize msg ≡ (
          if rate msg == 0 then msg else record msg {
            bytes = (msg.bytes * rate msg) % u64_mod;
            packets = (msg.packets * rate msg) % u64_mod;
            sampling_rate = rate msg;
            normalized = 1;
          })
  unfolding normalize
  normalize_lem msg = ground arith

  -- With a fallback, every flow that is sent on is marked as normalized and has a sampling rate.
  pub run_normalized :
      (ms : List Flow)
      → 0 < fallback
      → All (λ m. (m.normalized ≡ 1) × (0 < m.sampling_rate)) (run ms)
  unfolding run run_map
  run_normalized [] h = tt
  run_normalized (m ∷ ms) h = (rw (normalize_lem m) (ground arith), run_normalized ms h)
