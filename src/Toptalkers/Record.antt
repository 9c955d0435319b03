-- ===== src/Toptalkers/Record.antt =====
-- `Record` of toptalker_database.go: four rings of buckets that share one pointer. A method
-- returns the new record; the record's lock makes each method one step. `average` is the float
-- expression `uint64(float64(sum) / float64(n))`.
pub mod Valid
pub mod Empty
pub mod Window
pub mod Threshold
pub mod Reported
use flowpipeline.Base.{
  ℕ, zero, suc, ◌+◌, ◌-◌, ◌*◌, Bool, true, false, ◌&&◌, List, String, ltb, leb, ◌==◌, if◌then◌else◌,
  get_or, set, replicate, add64, mul64,
}

pub record Record : Type 0 where
  pub fwd_bytes : List ℕ
  pub fwd_packets : List ℕ
  pub drop_bytes : List ℕ
  pub drop_packets : List ℕ
  pub capacity : ℕ
  pub pointer : ℕ
  pub above_threshold : Bool
  pub address : String

unfoldable pub new_record : ℕ → String → Record
new_record window_size address = record {
  fwd_bytes = replicate window_size 0;
  fwd_packets = replicate window_size 0;
  drop_bytes = replicate window_size 0;
  drop_packets = replicate window_size 0;
  capacity = window_size;
  pointer = 0;
  above_threshold = false;
  address = address;
}

-- `buf[i] += x`. Out of range Go panics; `Valid.in_bounds` rules it out.
abbrev pub add_at : List ℕ → ℕ → ℕ → List ℕ
add_at buf i x = set buf i (add64 (get_or buf i 0) x)

unfoldable pub append : Record → ℕ → ℕ → Bool → Record
append r bytes packets true = record r {
  fwd_bytes = add_at r.fwd_bytes r.pointer bytes;
  fwd_packets = add_at r.fwd_packets r.pointer packets;
}
append r bytes packets false = record r {
  drop_bytes = add_at r.drop_bytes r.pointer bytes;
  drop_packets = add_at r.drop_packets r.pointer packets;
}

-- The loop `for i := 0; i < capacity; i++`, from `i` with `n` rounds left.
empty_from : Record → ℕ → ℕ → Bool
empty_from r i zero = true
empty_from r i (suc n) =
    let rest = empty_from r (i + 1) n in
    if ltb 0 (get_or r.fwd_packets i 0)
    then false
    else if ltb 0 (get_or r.drop_packets i 0)
    then false
    else rest

unfoldable pub is_empty : Record → Bool
unfolding empty_from
is_empty r = empty_from r 0 r.capacity

-- One step back round the ring: `if pos <= 0 { pos = capacity - 1 } else { pos-- }`.
unfoldable pub prev : ℕ → ℕ → ℕ
prev capacity pos = if pos == 0 then capacity - 1 else pos - 1

-- `record.pointer++; if record.pointer >= record.capacity { record.pointer = 0 }`.
unfoldable pub next : ℕ → ℕ → ℕ
next capacity pos = if leb capacity (pos + 1) then 0 else pos + 1

-- The four sums that `GetMetrics` gathers, over the `n` buckets before `pos`.
pub record Sums : Type 0 where
  pub sum_fwd_bytes : ℕ
  pub sum_fwd_packets : ℕ
  pub sum_drop_bytes : ℕ
  pub sum_drop_packets : ℕ

unfoldable pub sum_buckets : Record → ℕ → ℕ → Sums → Sums
sum_buckets r zero pos acc = acc
sum_buckets r (suc n) pos acc =
    let p = prev r.capacity pos in
    sum_buckets r n p (record {
      sum_fwd_bytes = add64 acc.sum_fwd_bytes (get_or r.fwd_bytes p 0);
      sum_fwd_packets = add64 acc.sum_fwd_packets (get_or r.fwd_packets p 0);
      sum_drop_bytes = add64 acc.sum_drop_bytes (get_or r.drop_bytes p 0);
      sum_drop_packets = add64 acc.sum_drop_packets (get_or r.drop_packets p 0);
    })

abbrev pub no_sums : Sums
no_sums = record {
  sum_fwd_bytes = 0;
  sum_fwd_packets = 0;
  sum_drop_bytes = 0;
  sum_drop_packets = 0;
}

-- `buckets == 0` means the whole window.
abbrev pub or_whole : ℕ → ℕ → ℕ
or_whole capacity buckets = if buckets == 0 then capacity else buckets

-- The two sums that `tick` gathers over the `n` buckets before `pos`.
unfoldable pub sum_traffic : Record → ℕ → ℕ → ℕ × ℕ → ℕ × ℕ
sum_traffic r zero pos acc = acc
sum_traffic r (suc n) pos (sum_bytes, sum_packets) =
    let p = prev r.capacity pos in
    sum_traffic r n p (
      add64 (add64 sum_bytes (get_or r.fwd_bytes p 0)) (get_or r.drop_bytes p 0),
      add64 (add64 sum_packets (get_or r.fwd_packets p 0)) (get_or r.drop_packets p 0),
    )

module _ {Float : Type 0} (divide : ℕ → ℕ → Float) where
  -- The rates in the order that the source returns them, `divide a b` for
  -- `float64(a) / float64(b)`.
  unfoldable pub get_metrics : Record → ℕ → ℕ → Float × Float × Float × Float × String
  get_metrics r buckets bucket_duration =
      let n = or_whole r.capacity buckets in
      let s = sum_buckets r n r.pointer no_sums in
      let t = n * bucket_duration in
      (
        divide (mul64 s.sum_fwd_bytes 8) t,
        divide s.sum_fwd_packets t,
        divide (mul64 s.sum_drop_bytes 8) t,
        divide s.sum_drop_packets t,
        r.address,
      )

module _ (average : ℕ → ℕ → ℕ) where
  unfoldable pub tick : Record → ℕ → ℕ → ℕ → ℕ → Record
  tick r threshold_buckets bucket_duration threshold_bps threshold_pps =
      let p = next r.capacity r.pointer in
      let n = or_whole r.capacity threshold_buckets in
      let sums = sum_traffic r n p (0, 0) in
      let bps = average (mul64 sums.0 8) (bucket_duration * n) in
      let pps = average sums.1 (bucket_duration * n) in
      record r {
        pointer = p;
        above_threshold = ltb threshold_bps bps && ltb threshold_pps pps;
        fwd_bytes = set r.fwd_bytes p 0;
        fwd_packets = set r.fwd_packets p 0;
        drop_bytes = set r.drop_bytes p 0;
        drop_packets = set r.drop_packets p 0;
      }
