-- ===== src/Toptalkers/Record/Reported.antt =====
-- What `GetMetrics` reports.
use flowpipeline.Base.{
  ℕ, zero, suc, ◌+◌, ◌*◌, ◌%◌, ◌<◌, ◌≤◌, ◌≡◌, ◌⊎◌, inl, ◌-◌, ap, List, get_or, arith, u64_mod,
  add64, mul64,
}
use flowpipeline.Toptalkers.Record.{Record, Sums, prev, or_whole, sum_buckets, get_metrics}
use flowpipeline.Toptalkers.Record.Valid.{IsValid, prev-lt}
use flowpipeline.Toptalkers.Record.Window.{back, window, windows}
use flowpipeline.Toptalkers.Record.Threshold.{total}

sum_buckets_lem :
    (r : Record) (n pos a b c d : ℕ)
    → a < u64_mod
    → b < u64_mod
    → c < u64_mod
    → d < u64_mod
    → let cap = r.capacity in
      let p = prev cap pos in
      let s : Sums = record {
        sum_fwd_bytes = a;
        sum_fwd_packets = b;
        sum_drop_bytes = c;
        sum_drop_packets = d;
      } in
      sum_buckets r n pos s ≡ record {
        sum_fwd_bytes = (a + total (back r.fwd_bytes cap p n)) % u64_mod;
        sum_fwd_packets = (b + total (back r.fwd_packets cap p n)) % u64_mod;
        sum_drop_bytes = (c + total (back r.drop_bytes cap p n)) % u64_mod;
        sum_drop_packets = (d + total (back r.drop_packets cap p n)) % u64_mod;
      }
unfolding sum_buckets
sum_buckets_lem r zero pos a b c d ha hb hc hd = ground arith
sum_buckets_lem r (suc n) pos a b c d ha hb hc hd =
    let p = prev r.capacity pos in
    ground (
      arith,
      sum_buckets_lem r n p (add64 a (get_or r.fwd_bytes p 0)) (add64 b (get_or r.fwd_packets p 0))
          (add64 c (get_or r.drop_bytes p 0)) (add64 d (get_or r.drop_packets p 0)) (omega arith)
          (omega arith) (omega arith) (omega arith),
    )

-- The position `n` steps back round the ring.
abbrev far : ℕ → ℕ → ℕ → ℕ
far cap pos zero = pos
far cap pos (suc n) = far cap (prev cap pos) n

prev-cases : (cap pos : ℕ) → ((pos ≡ 0) × (prev cap pos ≡ cap - 1)) ⊎ (prev cap pos + 1 ≡ pos)
unfolding prev
prev-cases cap pos = ground arith

far_lem :
    (cap pos n : ℕ)
    → pos < cap
    → n ≤ cap
    → (far cap pos n < cap) × ((far cap pos n + n ≡ pos) ⊎ (far cap pos n + n ≡ pos + cap))
far_lem cap pos zero h l = (h, inl (omega arith))
far_lem cap pos (suc n) h l =
    let (below, walked) = far_lem cap (prev cap pos) n (prev-lt cap pos h) (omega (arith, l)) in
    (below, omega (arith, below, walked, prev-cases cap pos, h, l))

total-back :
    (buf : List ℕ) (cap pos n : ℕ)
    → total (back buf cap pos (suc n)) ≡ total (back buf cap pos n) + get_or buf (far cap pos n) 0
total-back buf cap pos zero = omega arith
total-back buf cap pos (suc n) = omega (arith, total-back buf cap (prev cap pos) n)

-- A walk round the whole ring comes back to the bucket that it started before.
total-round :
    (buf : List ℕ) (cap pos : ℕ)
    → pos < cap
    → total (back buf cap (prev cap pos) cap) ≡ total (window buf cap pos)
total-round buf zero pos h = absurd (omega (arith, h))
total-round buf (suc n) pos h =
    let home : far (suc n) pos (suc n) ≡ pos =
      ground (arith, far_lem (suc n) pos (suc n) h (omega arith)) in
    omega (arith, total-back buf (suc n) (prev (suc n) pos) n, ap (λ p. get_or buf p 0) home)

-- As it is called, with the capacity of a valid record for the number of buckets, or with 0,
-- `GetMetrics` reports the rates of all counts in each of the four windows, the one that is still
-- being filled included, over the time of all buckets. The sums are taken modulo 2^64.
pub get_metrics-windows :
    {Float : Type 0} (divide : ℕ → ℕ → Float) (r : Record) (n d : ℕ)
    → IsValid r
    → (n ≡ 0) ⊎ (n ≡ r.capacity)
    → let w = windows r in
      get_metrics divide r n d ≡ (
        divide (mul64 (total w.fwd_bytes % u64_mod) 8) (r.capacity * d),
        divide (total w.fwd_packets % u64_mod) (r.capacity * d),
        divide (mul64 (total w.drop_bytes % u64_mod) 8) (r.capacity * d),
        divide (total w.drop_packets % u64_mod) (r.capacity * d),
        r.address,
      )
unfolding get_metrics
get_metrics-windows divide r n d v h =
    let whole : or_whole r.capacity n ≡ r.capacity = ground (arith, h) in
    rw
      (
        whole,
        sum_buckets_lem r r.capacity r.pointer 0 0 0 0 (omega arith) (omega arith) (omega arith)
            (omega arith),
        total-round r.fwd_bytes r.capacity r.pointer v.pointer_in,
        total-round r.fwd_packets r.capacity r.pointer v.pointer_in,
        total-round r.drop_bytes r.capacity r.pointer v.pointer_in,
        total-round r.drop_packets r.capacity r.pointer v.pointer_in,
      )
      (ground arith)
