-- ===== src/Toptalkers/Record/Empty.antt =====
-- When a record counts as empty.
use flowpipeline.Base.{
  ℕ, zero, suc, ◌+◌, ◌≤◌, ◌<◌, ◌≡◌, refl, true, arith, get_or, get_or-replicate, String,
}
use flowpipeline.Toptalkers.Record.{Record, new_record, empty_from, is_empty}

empty_from_lem :
    (r : Record) (i n j : ℕ)
    → empty_from r i n ≡ true
    → i ≤ j
    → j < i + n
    → (get_or r.fwd_packets j 0 ≡ 0) × (get_or r.drop_packets j 0 ≡ 0)
unfolding empty_from
empty_from_lem r i zero j h l u = absurd (omega arith)
empty_from_lem r i (suc n) j h l u = ground (arith, empty_from_lem r (i + 1) n j)

-- A record that counts as empty has no packets in any of its buckets.
pub packets_of_is_empty :
    (r : Record) (j : ℕ)
    → is_empty r ≡ true
    → j < r.capacity
    → (get_or r.fwd_packets j 0 ≡ 0) × (get_or r.drop_packets j 0 ≡ 0)
unfolding is_empty
packets_of_is_empty r j h u = empty_from_lem r 0 r.capacity j h (omega arith) (omega arith)

-- A new record counts as empty.
new_record-empty_from :
    (size : ℕ) (a : String) (i n : ℕ) → empty_from (new_record size a) i n ≡ true
unfolding empty_from new_record
new_record-empty_from size a i zero = refl
new_record-empty_from size a i (suc n) =
    rw (get_or-replicate {A = ℕ} size i 0) (new_record-empty_from size a (i + 1) n)

pub new_record-is_empty : (size : ℕ) (a : String) → is_empty (new_record size a) ≡ true
unfolding is_empty
new_record-is_empty size a = new_record-empty_from size a 0 (new_record size a).capacity
