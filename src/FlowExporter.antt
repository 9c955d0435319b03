-- ===== src/FlowExporter.antt =====
-- segments/input/bpf/flow_exporter.go and the type `Packet` of packet_dumper.go: the flow cache.
-- The methods that hold the mutex run one at a time; each is given the times that `time.Now`
-- returns in it, in nanoseconds. A result of none is a panic on a nil pointer.
pub mod Cache
pub mod Counts
pub mod Conserves
pub mod Consume
mod Tests
use Prim.Native.Nat.{bit_or, bit_and}
use flowpipeline.Base.{
  ℕ, ◌+◌, ◌-◌, Bool, true, false, ◌&&◌, List, [], ◌∷◌, ◌++◌, Option, none, some, length, replicate,
  ltb, ◌==◌, u8, add64, if◌then◌else◌,
}
use flowpipeline.Flow.{Bytes, Flow, empty_flow}
use flowpipeline.Flow.Ip.{octets, bytes_equal}

pub record Packet : Type 0 where
  pub src_addr : Bytes
  pub dst_addr : Bytes
  pub in_if : ℕ
  pub out_if : ℕ
  pub bytes : ℕ
  pub etype : ℕ
  pub proto : ℕ
  pub ipv6_flow_label : ℕ
  pub src_port : ℕ
  pub dst_port : ℕ
  pub ip_ttl : ℕ
  pub ip_tos : ℕ
  pub icmp_type : ℕ
  pub icmp_code : ℕ
  pub tcp_flags : ℕ
  pub flow_direction : ℕ
  pub remote_addr : ℕ

pub record FlowKey : Type 0 where
  pub src_addr : List ℕ
  pub dst_addr : List ℕ
  pub src_port : ℕ
  pub dst_port : ℕ
  pub proto : ℕ
  pub ip_tos : ℕ
  pub in_iface : ℕ

-- `IP.To16`.
unfoldable pub to16 : Bytes → Bytes
to16 ip =
    let l = octets ip in
    if length l == 4
    then some (replicate 10 0 ++ (255 ∷ 255 ∷ []) ++ l)
    else if length l == 16
    then ip
    else none

unfoldable pub new_flow_key : Packet → FlowKey
unfolding to16
new_flow_key pkt = record {
  src_addr = octets (to16 pkt.src_addr);
  dst_addr = octets (to16 pkt.dst_addr);
  src_port = pkt.src_port;
  dst_port = pkt.dst_port;
  proto = pkt.proto;
  ip_tos = pkt.ip_tos;
  in_iface = pkt.in_if;
}

-- The equality of two keys, by which the map finds them.
unfoldable pub same_key : FlowKey → FlowKey → Bool
unfolding bytes_equal
same_key a b =
    bytes_equal a.src_addr b.src_addr
    && bytes_equal a.dst_addr b.dst_addr
    && (a.src_port == b.src_port)
    && (a.dst_port == b.dst_port)
    && (a.proto == b.proto)
    && (a.ip_tos == b.ip_tos)
    && (a.in_iface == b.in_iface)

pub record FlowRecord : Type 0 where
  pub time_received : ℕ
  pub last_updated : ℕ
  pub sampler_address : Bytes
  pub packets : List Packet

abbrev pub Entries : Type 0
Entries = List (FlowKey × FlowRecord)

pub record FlowExporter : Type 0 where
  pub active_timeout : ℕ
  pub inactive_timeout : ℕ
  pub sampler_address : Bytes
  pub cache : Entries

-- `NewFlowExporter` for two timeouts that parse, and then `Start`.
unfoldable pub new_flow_exporter : ℕ → ℕ → Bytes → FlowExporter
new_flow_exporter active inactive sampler = record {
  active_timeout = active;
  inactive_timeout = inactive;
  sampler_address = sampler;
  cache = [];
}

-- The map: `m[key]`, `delete(m, key)` and `m[key] = record`.
unfoldable pub find : FlowKey → Entries → Option FlowRecord
find key [] = none
find key ((k, r) ∷ m) = if same_key k key then some r else find key m

unfoldable pub remove : FlowKey → Entries → Entries
remove key [] = []
remove key ((k, r) ∷ m) = if same_key k key then m else (k, r) ∷ remove key m

unfoldable pub put : FlowKey → FlowRecord → Entries → Entries
put key record' [] = (key, record') ∷ []
put key record' ((k, r) ∷ m) =
    if same_key k key then (k, record') ∷ m else (k, r) ∷ put key record' m

-- The fields that `BuildFlow` sets from the first packet.
abbrev pub set_key_fields : Packet → Flow → Flow
set_key_fields pkt msg = record msg {
  src_addr = pkt.src_addr;
  dst_addr = pkt.dst_addr;
  src_port = pkt.src_port;
  dst_port = pkt.dst_port;
  proto = pkt.proto;
  ip_tos = pkt.ip_tos;
  in_if = pkt.in_if;
  out_if = pkt.out_if;
  flow_direction = pkt.flow_direction;
  remote_addr = pkt.remote_addr;
  etype = pkt.etype;
  ipv6_flow_label = pkt.ipv6_flow_label;
  ip_ttl = pkt.ip_ttl;
  icmp_type = pkt.icmp_type;
  icmp_code = pkt.icmp_code;
}

-- The loop of `BuildFlow`, from the index `i` on.
unfoldable pub add_packets : ℕ → Flow → List Packet → Flow
add_packets i msg [] = msg
add_packets i msg (pkt ∷ pkts) =
    let msg' : Flow = if i == 0 then set_key_fields pkt msg else msg in
    add_packets (i + 1)
      (record msg' {
        tcp_flags = bit_or msg'.tcp_flags pkt.tcp_flags;
        bytes = add64 msg'.bytes pkt.bytes;
        packets = add64 msg'.packets 1;
      })
      pkts

unfoldable pub build_flow : FlowRecord → Flow
unfolding add_packets
build_flow f =
    add_packets 0
      (record empty_flow {
        type = ebpf;
        sampler_address = f.sampler_address;
        time_received = f.time_received;
        time_flow_start = f.time_received;
        time_flow_end = f.last_updated;
      })
      f.packets
  where
    ebpf : ℕ
    ebpf = 5

-- `export`: the flow that it sends on `Flows`.
unfoldable pub export : FlowKey → FlowExporter → Option (FlowExporter × Flow)
export key f = elim (find key f.cache) [
  | none ↦ none
  | some r ↦ some (record f { cache = remove key f.cache }, build_flow r)
]

-- `Insert`, with the times of its two calls of `time.Now`.
unfoldable pub insert : Packet → ℕ → ℕ → FlowExporter → Option (FlowExporter × List Flow)
insert pkt now now' f =
    let key = new_flow_key pkt in
    let found : FlowRecord = elim (find key f.cache) [
      | none ↦ record {
        time_received = now;
        last_updated = 0;
        sampler_address = none;
        packets = [];
      }
      | some r ↦ r
    ] in
    let updated : FlowRecord = record found {
      last_updated = now';
      sampler_address = f.sampler_address;
      packets = found.packets ++ (pkt ∷ []);
    } in
    let f' : FlowExporter = record f { cache = put key updated f.cache } in
    if bit_and pkt.tcp_flags 1 == 1
    then elim (export key f') [ none ↦ none | some (f'', msg) ↦ some (f'', msg ∷ []) ]
    else some (f', [])

-- The loop `for key, record := range f.cache { if … { f.export(key) } }`, over the entries that
-- the map has when it starts.
unfoldable pub export_where :
    (FlowRecord → Bool) → Entries → FlowExporter → Option (FlowExporter × List Flow)
export_where test [] f = some (f, [])
export_where test ((key, r) ∷ entries) f =
    if test r
    then elim (export key f) [
      | none ↦ none
      | some (f', msg) ↦ elim (export_where test entries f') [
        | none ↦ none
        | some (f'', msgs) ↦ some (f'', msg ∷ msgs)
      ]
    ]
    else export_where test entries f

-- A tick of `exportInactive` and of `exportActive`.
unfoldable pub export_inactive : ℕ → FlowExporter → Option (FlowExporter × List Flow)
export_inactive now f = export_where (λ r. ltb f.inactive_timeout (now - r.last_updated)) f.cache f

unfoldable pub export_active : ℕ → FlowExporter → Option (FlowExporter × List Flow)
export_active now f = export_where (λ r. ltb f.active_timeout (now - r.time_received)) f.cache f

-- What takes the mutex, in the order in which it does.
pub data Step : Type 0 where
  arrives : Packet → ℕ → ℕ → Step
  inactive_ticks : ℕ → Step
  active_ticks : ℕ → Step

unfoldable pub step : Step → FlowExporter → Option (FlowExporter × List Flow)
step (arrives pkt now now') f = insert pkt now now' f
step (inactive_ticks now) f = export_inactive now f
step (active_ticks now) f = export_active now f

unfoldable pub run : List Step → FlowExporter → Option (FlowExporter × List Flow)
run [] f = some (f, [])
run (s ∷ ss) f = elim (step s f) [
  | none ↦ none
  | some (f', msgs) ↦ elim (run ss f') [
    | none ↦ none
    | some (f'', msgs') ↦ some (f'', msgs ++ msgs')
  ]
]

-- The packet that a receive from a closed channel gives.
abbrev pub zero_packet : Packet
zero_packet = record {
  src_addr = none;
  dst_addr = none;
  in_if = 0;
  out_if = 0;
  bytes = 0;
  etype = 0;
  proto = 0;
  ipv6_flow_label = 0;
  src_port = 0;
  dst_port = 0;
  ip_ttl = 0;
  ip_tos = 0;
  icmp_type = 0;
  icmp_code = 0;
  tcp_flags = 0;
  flow_direction = 0;
  remote_addr = 0;
}

-- `ConsumeFrom` on a channel of packets, each with the times of its insertion, that is closed
-- after the last one: what is inserted, the packet of the closed channel at the time `last`.
unfoldable pub consume_from : List (Packet × ℕ × ℕ) → ℕ → ℕ → List Step
consume_from [] last last' = arrives zero_packet last last' ∷ []
consume_from ((pkt, now, now') ∷ pkts) last last' =
    arrives pkt now now' ∷ consume_from pkts last last'
