-- ===== src/FlowExporter/Tests.antt =====
-- The flow cache at concrete inputs.
use flowpipeline.Base.{ℕ, ◌+◌, List, [], ◌∷◌, length, some}
use flowpipeline.FlowExporter.{
  Packet, zero_packet, FlowRecord, FlowExporter, Step, arrives, inactive_ticks, active_ticks, run,
  consume_from,
}
use flowpipeline.FlowExporter.Conserves.{Conserves, packets_in, bytes_in, sum_in, run-Conserves}
use flowpipeline.FlowExporter.Consume.{received_bytes, consume_from_counts}

abbrev web : Packet
web = record zero_packet {
  src_addr = some (10 ∷ 0 ∷ 0 ∷ 1 ∷ []);
  bytes = 1500;
  proto = 6;
  dst_port = 443;
}

-- The same flow with the flag FIN, and another flow.
abbrev last_web : Packet
last_web = record web { bytes = 40; tcp_flags = 1 }

abbrev dns : Packet
dns = record web { proto = 17; dst_port = 53; bytes = 80 }

abbrev exporter : FlowExporter
exporter = record {
  active_timeout = 100;
  inactive_timeout = 10;
  sampler_address = some [];
  cache = [];
}

abbrev steps : List Step
steps =
    arrives web 1 1
    ∷ arrives dns 2 2
    ∷ arrives last_web 3 3
    ∷ arrives web 4 4
    ∷ inactive_ticks 13
    ∷ active_ticks 105
    ∷ []

run-Conserves_example :
    Conserves exporter.cache (sum_in packets_in steps) (sum_in bytes_in steps) (run steps exporter)
run-Conserves_example = run-Conserves steps exporter tt

abbrev two_packets : FlowRecord
two_packets = record {
  time_received = 1;
  last_updated = 3;
  sampler_address = some [];
  packets = web ∷ last_web ∷ [];
}

abbrev received : List (Packet × ℕ × ℕ)
received = (web, 1, 1) ∷ (dns, 2, 2) ∷ []

consume_from_counts_example :
    Conserves exporter.cache
      (length received + 1)
      (received_bytes received)
      (run (consume_from received 3 3) exporter)
consume_from_counts_example = consume_from_counts received 3 3 exporter tt
