-- ===== src/Toptalkers/Record/Valid.antt =====
-- The invariant of a record: no access of a bucket is out of range.
use flowpipeline.Base.{
  ℕ, ◌<◌, ◌≡◌, Bool, true, false, String, length, length-set, length-replicate, get_or, add64,
  arith,
}
use flowpipeline.Toptalkers.Record.{Record, new_record, append, prev, next, tick}

pub record IsValid (r : Record) : Type 0 where
  pub pointer_in : r.pointer < r.capacity
  pub fwd_bytes_len : length r.fwd_bytes ≡ r.capacity
  pub fwd_packets_len : length r.fwd_packets ≡ r.capacity
  pub drop_bytes_len : length r.drop_bytes ≡ r.capacity
  pub drop_packets_len : length r.drop_packets ≡ r.capacity

pub new_record-IsValid : (n : ℕ) (a : String) → 0 < n → IsValid (new_record n a)
unfolding new_record
new_record-IsValid n a h = ground (arith, length-replicate {A = ℕ} n 0)

pub append-IsValid : (r : Record) (b p : ℕ) (fwd : Bool) → IsValid r → IsValid (append r b p fwd)
unfolding append
append-IsValid r b p true v = ground (
  arith,
  length-set r.fwd_bytes r.pointer (add64 (get_or r.fwd_bytes r.pointer 0) b),
  length-set r.fwd_packets r.pointer (add64 (get_or r.fwd_packets r.pointer 0) p),
)
append-IsValid r b p false v = ground (
  arith,
  length-set r.drop_bytes r.pointer (add64 (get_or r.drop_bytes r.pointer 0) b),
  length-set r.drop_packets r.pointer (add64 (get_or r.drop_packets r.pointer 0) p),
)

pub prev-lt : (capacity pos : ℕ) → pos < capacity → prev capacity pos < capacity
unfolding prev
prev-lt capacity pos h = ground arith

pub next-lt : (capacity pos : ℕ) → pos < capacity → next capacity pos < capacity
unfolding next
next-lt capacity pos h = ground arith

pub prev-next : (capacity pos : ℕ) → pos < capacity → prev capacity (next capacity pos) ≡ pos
unfolding prev next
prev-next capacity pos h = ground arith

pub tick-IsValid :
    (average : ℕ → ℕ → ℕ) (r : Record) (n d bps pps : ℕ)
    → IsValid r
    → IsValid (tick average r n d bps pps)
unfolding tick
tick-IsValid average r n d bps pps v =
    let p = next r.capacity r.pointer in
    record {
      pointer_in = next-lt r.capacity r.pointer v.pointer_in;
      fwd_bytes_len = omega (arith, length-set {0} r.fwd_bytes p 0, v.fwd_bytes_len);
      fwd_packets_len = omega (arith, length-set {0} r.fwd_packets p 0, v.fwd_packets_len);
      drop_bytes_len = omega (arith, length-set {0} r.drop_bytes p 0, v.drop_bytes_len);
      drop_packets_len = omega (arith, length-set {0} r.drop_packets p 0, v.drop_packets_len);
    }
