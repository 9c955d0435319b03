-- ===== src/Aggregate.antt =====
-- segments/filter/aggregate: the cache that builds flows from the layers of captured packets. The
-- packets are those of gopacket; times are in nanoseconds.
pub mod Cache
pub mod Same
pub mod Counts
pub mod Conserves
pub mod Locked
mod Tests
use Prim.Native.Nat.{bit_or}
use flowpipeline.Base.{
  ℕ, ◌+◌, ◌*◌, Bool, true, false, ◌&&◌, List, [], ◌∷◌, Option, none, some, ◌==◌, ◌%◌, u64_mod, u8,
  u16, u32, add64, if◌then◌else◌,
}
use flowpipeline.Flow.{Bytes, Flow, empty_flow}
use flowpipeline.Flow.Ip.{octets, bytes_equal}
use flowpipeline.FlowExporter.{to16}

pub record Flags : Type 0 where
  pub urg : Bool
  pub ack : Bool
  pub psh : Bool
  pub rst : Bool
  pub syn : Bool
  pub fin : Bool

-- A layer, with the fields that are read.
pub data Layer : Type 0 where
  ethernet : (etype : ℕ) → (src_mac dst_mac : List ℕ) → Layer
  ipv4 : (src_ip dst_ip : Bytes) → (protocol tos ttl : ℕ) → Layer
  ipv6 : (src_ip dst_ip : Bytes) → (next_header traffic_class hop_limit flow_label : ℕ) → Layer
  tcp : (src_port dst_port : ℕ) → Flags → Layer
  udp : (src_port dst_port : ℕ) → Layer
  icmpv4 icmpv6 : (icmp_type icmp_code : ℕ) → Layer
  other : Layer

pub record Packet : Type 0 where
  pub interface_index : ℕ
  pub timestamp : ℕ
  pub length : ℕ
  pub layers : List Layer

pub record FlowKey : Type 0 where
  pub src_addr : List ℕ
  pub dst_addr : List ℕ
  pub src_port : ℕ
  pub dst_port : ℕ
  pub proto : ℕ
  pub ip_tos : ℕ
  pub in_iface : ℕ

-- A case of the switch in `NewFlowKey`.
unfoldable pub add_layer : FlowKey → Layer → FlowKey
unfolding to16
add_layer fkey (ethernet etype src dst) = fkey
add_layer fkey (ipv4 src dst protocol tos ttl) = record fkey {
  src_addr = octets (to16 src);
  dst_addr = octets (to16 dst);
  proto = protocol;
  ip_tos = tos;
}
add_layer fkey (ipv6 src dst next_header traffic_class hop_limit flow_label) = record fkey {
  src_addr = octets src;
  dst_addr = octets dst;
  proto = next_header;
  ip_tos = traffic_class;
}
add_layer fkey (tcp src dst flags) = record fkey { src_port = src; dst_port = dst }
add_layer fkey (udp src dst) = record fkey { src_port = src; dst_port = dst }
add_layer fkey (icmpv4 t c) = fkey
add_layer fkey (icmpv6 t c) = fkey
add_layer fkey other = fkey

unfoldable pub add_layers : FlowKey → List Layer → FlowKey
unfolding add_layer
add_layers fkey [] = fkey
add_layers fkey (l ∷ ls) = add_layers (add_layer fkey l) ls

unfoldable pub new_flow_key : Packet → FlowKey
unfolding add_layers
new_flow_key packet =
    add_layers
      (record {
        src_addr = [];
        dst_addr = [];
        src_port = 0;
        dst_port = 0;
        proto = 0;
        ip_tos = 0;
        in_iface = u32 packet.interface_index;
      })
      packet.layers

-- `to_string` is the text of an address, `IP.String`.
unfoldable pub new_flow_key_from_flow : (Bytes → List ℕ) → Flow → FlowKey
new_flow_key_from_flow to_string flow = record {
  src_addr = to_string flow.src_addr;
  dst_addr = to_string flow.dst_addr;
  src_port = u16 flow.src_port;
  dst_port = u16 flow.dst_port;
  proto = flow.proto;
  ip_tos = u8 flow.ip_tos;
  in_iface = flow.in_if;
}

-- The equality of two keys, by which the map finds them.
unfoldable pub same_key : FlowKey → FlowKey → Bool
unfolding bytes_equal
same_key a b =
    bytes_equal a.src_addr b.src_addr
    && bytes_equal a.dst_addr b.dst_addr
    && (a.src_port == b.src_port)
    && (a.dst_port == b.dst_port)
    && (a.proto == b.proto)
    && (a.ip_tos == b.ip_tos)
    && (a.in_iface == b.in_iface)

pub record FlowRecord : Type 0 where
  pub time_received : ℕ
  pub last_updated : ℕ
  pub sampler_address : Bytes
  pub hardware_address : List ℕ
  pub packets : List Packet
  pub flows : List Flow

-- The flags of a TCP layer, as `BuildFlow` adds them to those of the flow.
unfoldable pub flag_bits : Flags → ℕ → ℕ
flag_bits f bits =
    let a = if f.urg then bit_or bits 32 else bits in
    let b = if f.ack then bit_or a 16 else a in
    let c = if f.psh then bit_or b 8 else b in
    let d = if f.rst then bit_or c 4 else c in
    let e = if f.syn then bit_or d 2 else d in if f.fin then bit_or e 1 else e

-- A case of the switch in `BuildFlow`, for the first packet.
unfoldable pub set_layer : List ℕ → Flow → Layer → Flow
unfolding bytes_equal flag_bits
set_layer hardware msg (ethernet etype src dst) =
    let a : Flow = record msg { etype = etype } in
    let b : Flow =
      if bytes_equal src hardware then record a { flow_direction = 1; remote_addr = 2 } else a in
    if bytes_equal dst hardware then record b { flow_direction = 0; remote_addr = 1 } else b
set_layer hardware msg (ipv4 src dst protocol tos ttl) = record msg {
  src_addr = src;
  dst_addr = dst;
  proto = protocol;
  ip_tos = tos;
  ip_ttl = ttl;
}
set_layer hardware msg (ipv6 src dst next_header traffic_class hop_limit flow_label) = record msg {
  src_addr = src;
  dst_addr = dst;
  proto = next_header;
  ip_tos = traffic_class;
  ip_ttl = hop_limit;
  ipv6_flow_label = flow_label;
}
set_layer hardware msg (tcp src dst flags) = record msg {
  src_port = src;
  dst_port = dst;
  tcp_flags = flag_bits flags msg.tcp_flags;
}
set_layer hardware msg (udp src dst) = record msg { src_port = src; dst_port = dst }
set_layer hardware msg (icmpv4 t c) = record msg { icmp_type = t; icmp_code = c }
set_layer hardware msg (icmpv6 t c) = record msg { icmp_type = t; icmp_code = c }
set_layer hardware msg other = msg

unfoldable pub set_layers : List ℕ → Flow → List Layer → Flow
unfolding set_layer
set_layers hardware msg [] = msg
set_layers hardware msg (l ∷ ls) = set_layers hardware (set_layer hardware msg l) ls

-- What the loop of `BuildFlow` does for every packet.
unfoldable pub count_packet : Flow → Packet → Flow
count_packet msg pkt = record msg {
  bytes = add64 msg.bytes pkt.length;
  packets = add64 msg.packets 1;
}

unfoldable pub count_packets : Flow → List Packet → Flow
unfolding count_packet
count_packets msg [] = msg
count_packets msg (pkt ∷ pkts) = count_packets (count_packet msg pkt) pkts

-- The loop over the packets, of which only the first sets the fields.
unfoldable pub add_packets : List ℕ → Flow → List Packet → Flow
unfolding set_layers count_packet count_packets
add_packets hardware msg [] = msg
add_packets hardware msg (pkt ∷ pkts) =
    count_packets
      (count_packet
        (set_layers hardware (record msg { in_if = u32 pkt.interface_index }) pkt.layers) pkt)
      pkts

-- `merge` is `proto.Merge`.
unfoldable pub merge_flows : (Flow → Flow → Flow) → Flow → List Flow → Flow
merge_flows merge msg [] = msg
merge_flows merge msg (flow ∷ flows) = merge_flows merge (merge msg flow) flows

unfoldable pub build_flow : (Flow → Flow → Flow) → FlowRecord → Flow
unfolding add_packets merge_flows
build_flow merge f =
    merge_flows merge
      (add_packets f.hardware_address
        (record empty_flow {
          type = 5;
          sampler_address = f.sampler_address;
          time_received = f.time_received % u64_mod;
          time_flow_start = f.time_received % u64_mod;
          time_flow_end = f.last_updated % u64_mod;
        })
        f.packets)
      f.flows
