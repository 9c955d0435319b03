-- ===== src/FlowExporter/Consume.antt =====
-- What `ConsumeFrom` counts.
use flowpipeline.Base.{ℕ, ◌+◌, List, [], ◌∷◌, length, ◌≡◌, sym, arith}
use flowpipeline.FlowExporter.{Packet, FlowExporter, run, consume_from}
use flowpipeline.FlowExporter.Conserves.{Conserves, packets_in, bytes_in, sum_in, run-Conserves}
use flowpipeline.FlowExporter.Cache.{Distinct}

sum_in-consume_from :
    (pkts : List (Packet × ℕ × ℕ)) (last last' : ℕ)
    → sum_in packets_in (consume_from pkts last last') ≡ length pkts + 1
unfolding consume_from
sum_in-consume_from [] last last' = omega arith
sum_in-consume_from ((pkt, now, now') ∷ pkts) last last' =
    omega (arith, sum_in-consume_from pkts last last')

-- The bytes of the packets that a channel gives.
abbrev pub received_bytes : List (Packet × ℕ × ℕ) → ℕ
received_bytes [] = 0
received_bytes ((pkt, now, now') ∷ pkts) = pkt.bytes + received_bytes pkts

bytes-consume_from :
    (pkts : List (Packet × ℕ × ℕ)) (last last' : ℕ)
    → sum_in bytes_in (consume_from pkts last last') ≡ received_bytes pkts
unfolding consume_from
bytes-consume_from [] last last' = omega arith
bytes-consume_from ((pkt, now, now') ∷ pkts) last last' =
    omega (arith, bytes-consume_from pkts last last')

-- Over a channel that is closed after its packets, `ConsumeFrom` counts one packet more than it
-- received: from a cache with distinct keys, the exported flows and the cache hold afterwards,
-- modulo 2^64, the bytes that the cache held and those of the channel's packets, but the packets
-- that the cache held, those of the channel and one more.
pub consume_from_counts :
    (pkts : List (Packet × ℕ × ℕ)) (last last' : ℕ) (f : FlowExporter)
    → Distinct f.cache
    → Conserves f.cache
        (length pkts + 1)
        (received_bytes pkts)
        (run (consume_from pkts last last') f)
consume_from_counts pkts last last' f d =
    rw (sym (sum_in-consume_from pkts last last'), sym (bytes-consume_from pkts last last'))
      (run-Conserves (consume_from pkts last last') f d)
