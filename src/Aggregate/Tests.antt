-- ===== src/Aggregate/Tests.antt =====
-- The cache of `aggregate` at concrete inputs.
use flowpipeline.Base.{ℕ, Bool, true, false, List, [], ◌∷◌, none, some, ◌≡◌, refl}
use flowpipeline.Flow.{Flow, empty_flow}
use flowpipeline.Flow.Ip.{octets}
use flowpipeline.Aggregate.{Flags, ipv4, tcp, Packet}
use flowpipeline.Aggregate.Counts.{one, size}
use flowpipeline.Aggregate.Cache.{
  unlocked, FlowExporter, blocks, panics, Step, inserts, inserts_flow, inactive_ticks, active_ticks,
  run, run_segment,
}
use flowpipeline.Aggregate.Conserves.{Conserves, counted_in, run_keeps_counts}
use flowpipeline.Aggregate.Locked.{run-inserts_flow}

abbrev only_fin : Bool → Flags
only_fin b = record { urg = false; ack = false; psh = false; rst = false; syn = false; fin = b }

abbrev packet : ℕ → Bool → Packet
packet n last = record {
  interface_index = 1;
  timestamp = n;
  length = 1500;
  layers =
      ipv4 (some (10 ∷ 0 ∷ 0 ∷ 1 ∷ [])) (some (10 ∷ 0 ∷ 0 ∷ 2 ∷ [])) 6 0 64
      ∷ tcp 50000 443 (only_fin last)
      ∷ [];
}

abbrev exporter : FlowExporter
exporter = record {
  active_timeout = 100;
  inactive_timeout = 10;
  sampler_address = none;
  hardware_address = [];
  mutex = unlocked;
  cache = [];
}

abbrev keep : Flow → Flow → Flow
keep a b = a

abbrev steps : List Step
steps =
    inserts (packet 1 false)
    ∷ inserts (packet 2 true)
    ∷ inserts (packet 3 false)
    ∷ inactive_ticks 20
    ∷ active_ticks 110
    ∷ []

run_keeps_counts_example :
    Conserves
      (λ msg. msg.packets)
      one
      exporter
      (counted_in (λ msg. msg.packets) one keep octets steps)
      (run keep octets steps exporter)
    × Conserves
        (λ msg. msg.bytes)
        size
        exporter
        (counted_in (λ msg. msg.bytes) size keep octets steps)
        (run keep octets steps exporter)
run_keeps_counts_example =
    run_keeps_counts keep octets steps exporter (tt, (tt, (tt, (tt, (tt, tt))))) (refl, tt, tt)

run-inserts_flow_example :
    (run keep octets (inserts_flow empty_flow ∷ inactive_ticks 20 ∷ []) exporter ≡ blocks)
    × (run_segment keep octets (empty_flow ∷ []) ≡ panics)
run-inserts_flow_example =
    run-inserts_flow keep octets empty_flow (inactive_ticks 20) [] [] exporter refl
