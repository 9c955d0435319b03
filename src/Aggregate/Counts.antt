-- ===== src/Aggregate/Counts.antt =====
-- What `BuildFlow` counts, and which direction it gives a flow.
use flowpipeline.Base.{u32, ℕ, ◌+◌, ◌%◌, ◌<◌, List, [], ◌∷◌, ◌≡◌, refl, arith, u64_mod, ◌∙◌}
use flowpipeline.Flow.{Flow}
use flowpipeline.Aggregate.{
  Layer, ethernet, ipv4, ipv6, tcp, udp, icmpv4, icmpv6, other, Packet, FlowRecord, set_layer,
  set_layers, count_packet, count_packets, add_packets, merge_flows, build_flow,
}

abbrev pub one : Packet → ℕ
one p = 1

abbrev pub size : Packet → ℕ
size p = p.length

abbrev pub total : (Packet → ℕ) → List Packet → ℕ
total w [] = 0
total w (p ∷ ps) = w p + total w ps

-- A record to which no flow was added.
abbrev pub IsOfPackets : FlowRecord → Type 0
IsOfPackets r = r.flows ≡ []

abbrev Same : Flow → Flow → Type 0
Same a b = (a.packets ≡ b.packets) × (a.bytes ≡ b.bytes)

set_layer-Same : (hardware : List ℕ) (msg : Flow) (l : Layer) → Same (set_layer hardware msg l) msg
unfolding set_layer
set_layer-Same hardware msg (ipv4 src dst protocol tos ttl) = (refl, refl)
set_layer-Same hardware msg (ipv6 src dst n t h f) = (refl, refl)
set_layer-Same hardware msg (tcp src dst flags) = (refl, refl)
set_layer-Same hardware msg (udp src dst) = (refl, refl)
set_layer-Same hardware msg (icmpv4 t c) = (refl, refl)
set_layer-Same hardware msg (icmpv6 t c) = (refl, refl)
set_layer-Same hardware msg other = (refl, refl)
set_layer-Same hardware msg (ethernet etype src dst) = ground arith

set_layers-Same :
    (hardware : List ℕ) (msg : Flow) (ls : List Layer) → Same (set_layers hardware msg ls) msg
unfolding set_layers
set_layers-Same hardware msg [] = (refl, refl)
set_layers-Same hardware msg (l ∷ ls) =
    let (p, b) = set_layers-Same hardware (set_layer hardware msg l) ls in
    let (p', b') = set_layer-Same hardware msg l in (p ∙ p', b ∙ b')

count_packets_lem :
    (msg : Flow) (ps : List Packet)
    → msg.packets < u64_mod
    → msg.bytes < u64_mod
    → ((count_packets msg ps).packets ≡ (msg.packets + total one ps) % u64_mod)
      × ((count_packets msg ps).bytes ≡ (msg.bytes + total size ps) % u64_mod)
unfolding count_packets count_packet
count_packets_lem msg [] h l = (omega (arith, h), omega (arith, l))
count_packets_lem msg (p ∷ ps) h l =
    let (a, b) = count_packets_lem (count_packet msg p) ps (omega arith) (omega arith) in
    (omega (arith, a), omega (arith, b))

add_packets_lem :
    (hardware : List ℕ) (msg : Flow) (ps : List Packet)
    → msg.packets ≡ 0
    → msg.bytes ≡ 0
    → ((add_packets hardware msg ps).packets ≡ total one ps % u64_mod)
      × ((add_packets hardware msg ps).bytes ≡ total size ps % u64_mod)
unfolding add_packets count_packet
add_packets_lem hardware msg [] h l = (omega (arith, h), omega (arith, l))
add_packets_lem hardware msg (p ∷ ps) h l =
    let first : Flow =
      set_layers hardware (record msg { in_if = u32 p.interface_index }) p.layers in
    let (n, m) = set_layers-Same hardware (record msg { in_if = u32 p.interface_index }) p.layers in
    let (a, b) = count_packets_lem (count_packet first p) ps (omega arith) (omega arith) in
    (omega (arith, a, n, h), omega (arith, b, m, l))

-- A flow built of packets alone counts them and adds up their lengths, modulo 2^64.
pub build_flow_counts :
    (merge : Flow → Flow → Flow) (r : FlowRecord)
    → IsOfPackets r
    → ((build_flow merge r).packets ≡ total one r.packets % u64_mod)
      × ((build_flow merge r).bytes ≡ total size r.packets % u64_mod)
unfolding build_flow merge_flows
build_flow_counts merge r h = rw h (add_packets_lem r.hardware_address _ r.packets refl refl)
