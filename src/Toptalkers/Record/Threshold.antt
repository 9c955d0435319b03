-- ===== src/Toptalkers/Record/Threshold.antt =====
-- What `tick` compares with the thresholds.
use flowpipeline.Base.{
  ℕ, zero, suc, ◌+◌, ◌*◌, ◌%◌, ◌≤◌, ◌<◌, ◌≡◌, ◌≢◌, List, [], ◌∷◌, ◌&&◌, get_or, take, ltb, arith,
  u64_mod, add64, mul64,
}
use flowpipeline.Toptalkers.Record.{Record, prev, next, sum_traffic, tick}
use flowpipeline.Toptalkers.Record.Valid.{IsValid, prev-next}
use flowpipeline.Toptalkers.Record.Window.{back, take-back, windows}

abbrev pub total : List ℕ → ℕ
total [] = 0
total (x ∷ xs) = x + total xs

abbrev pub traffic : List ℕ → List ℕ → ℕ
traffic forwarded dropped = (total forwarded + total dropped) % u64_mod

sum_traffic_lem :
    (r : Record) (n pos a b : ℕ)
    → a < u64_mod
    → b < u64_mod
    → let cap = r.capacity in
      let p = prev cap pos in
      sum_traffic r n pos (a, b) ≡ (
        (a + total (back r.fwd_bytes cap p n) + total (back r.drop_bytes cap p n)) % u64_mod,
        (b + total (back r.fwd_packets cap p n) + total (back r.drop_packets cap p n)) % u64_mod,
      )
unfolding sum_traffic
sum_traffic_lem r zero pos a b ha hb = ground arith
sum_traffic_lem r (suc n) pos a b ha hb =
    let p = prev r.capacity pos in
    ground (
      arith,
      sum_traffic_lem r n p (add64 (add64 a (get_or r.fwd_bytes p 0)) (get_or r.drop_bytes p 0))
          (add64 (add64 b (get_or r.fwd_packets p 0)) (get_or r.drop_packets p 0)) (omega arith)
          (omega arith),
    )

-- With `n` threshold buckets, 0 < n ≤ capacity, `tick` marks a valid record as above threshold
-- exactly when the average of the bits and the average of the packets over the newest `n` counts
-- of its windows both pass their thresholds; the sums are taken modulo 2^64.
pub above_threshold-tick :
    (average : ℕ → ℕ → ℕ) (r : Record) (n d bps pps : ℕ)
    → IsValid r
    → n ≢ 0
    → n ≤ r.capacity
    → let w = windows r in
      let bytes = traffic (take n w.fwd_bytes) (take n w.drop_bytes) in
      let packets = traffic (take n w.fwd_packets) (take n w.drop_packets) in
      (tick average r n d bps pps).above_threshold
      ≡ (ltb bps (average (mul64 bytes 8) (d * n)) && ltb pps (average packets (d * n)))
unfolding tick
above_threshold-tick average r n d bps pps v h k = ground (
  arith,
  sum_traffic_lem r n (next r.capacity r.pointer) 0 0,
  prev-next r.capacity r.pointer,
  take-back r.fwd_bytes r.capacity r.pointer r.capacity n,
  take-back r.drop_bytes r.capacity r.pointer r.capacity n,
  take-back r.fwd_packets r.capacity r.pointer r.capacity n,
  take-back r.drop_packets r.capacity r.pointer r.capacity n,
)
