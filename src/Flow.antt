-- ===== src/Flow.antt =====
-- pb/enrichedflow.pb.go: the flow message that every segment reads and writes. Enumerations are
-- their numbers; the runtime's private `state` field is left out.
pub mod Ip
pub mod Status
pub mod Mac
pub mod Timestamps
mod Tests
use Prim.Native.String.{String}
use flowpipeline.Base.{ℕ, List, Option, Bool, none, false, []}

-- A `[]byte`: `none` is nil.
abbrev pub Bytes : Type 0
Bytes = Option (List ℕ)

pub record Flow : Type 0 where
  pub type : ℕ
  pub time_received : ℕ
  pub time_received_ns : ℕ
  pub sequence_num : ℕ
  pub sampling_rate : ℕ
  pub flow_direction : ℕ
  pub time_flow_start_ns : ℕ
  pub time_flow_end_ns : ℕ
  pub sampler_address : Bytes
  pub time_flow_end : ℕ
  pub time_flow_start_ms : ℕ
  pub time_flow_end_ms : ℕ
  pub bytes : ℕ
  pub packets : ℕ
  pub src_addr : Bytes
  pub dst_addr : Bytes
  pub etype : ℕ
  pub proto : ℕ
  pub src_port : ℕ
  pub dst_port : ℕ
  pub in_if : ℕ
  pub out_if : ℕ
  pub src_mac : ℕ
  pub dst_mac : ℕ
  pub src_vlan : ℕ
  pub dst_vlan : ℕ
  pub vlan_id : ℕ
  pub ingress_vrf_id : ℕ
  pub egress_vrf_id : ℕ
  pub ip_tos : ℕ
  pub forwarding_status : ℕ
  pub ip_ttl : ℕ
  pub ip_flags : ℕ
  pub tcp_flags : ℕ
  pub icmp_type : ℕ
  pub icmp_code : ℕ
  pub ipv6_flow_label : ℕ
  pub fragment_id : ℕ
  pub fragment_offset : ℕ
  pub bi_flow_direction : ℕ
  pub src_as : ℕ
  pub dst_as : ℕ
  pub next_hop : Bytes
  pub next_hop_as : ℕ
  pub src_net : ℕ
  pub dst_net : ℕ
  pub bgp_next_hop : Bytes
  pub bgp_communities : List ℕ
  pub as_path : List ℕ
  pub mpls_ttl : List ℕ
  pub mpls_label : List ℕ
  pub mpls_ip : List Bytes
  pub has_mpls : Bool
  pub mpls_count : ℕ
  pub mpls_1_ttl : ℕ
  pub mpls_1_label : ℕ
  pub mpls_2_ttl : ℕ
  pub mpls_2_label : ℕ
  pub mpls_3_ttl : ℕ
  pub mpls_3_label : ℕ
  pub mpls_last_ttl : ℕ
  pub mpls_last_label : ℕ
  pub mpls_label_ip : Bytes
  pub observation_domain_id : ℕ
  pub observation_point_id : ℕ
  pub src_country : String
  pub dst_country : String
  pub layer_stack : List ℕ
  pub layer_size : List ℕ
  pub ipv6_routing_header_addresses : List Bytes
  pub ipv6_routing_header_seg_left : ℕ
  pub packet_bytes_min : ℕ
  pub packet_bytes_max : ℕ
  pub packet_bytes_mean : ℕ
  pub packet_bytes_std_dev : ℕ
  pub packet_iat_min : ℕ
  pub packet_iat_max : ℕ
  pub packet_iat_mean : ℕ
  pub packet_iat_std_dev : ℕ
  pub header_bytes : ℕ
  pub fin_flag_count : ℕ
  pub syn_flag_count : ℕ
  pub rst_flag_count : ℕ
  pub psh_flag_count : ℕ
  pub ack_flag_count : ℕ
  pub urg_flag_count : ℕ
  pub cwr_flag_count : ℕ
  pub ece_flag_count : ℕ
  pub payload_packets : ℕ
  pub time_active_min : ℕ
  pub time_active_max : ℕ
  pub time_active_mean : ℕ
  pub time_active_std_dev : ℕ
  pub time_idle_min : ℕ
  pub time_idle_max : ℕ
  pub time_idle_mean : ℕ
  pub time_idle_std_dev : ℕ
  pub cid : ℕ
  pub cid_string : String
  pub src_cid : ℕ
  pub dst_cid : ℕ
  pub net_id : ℕ
  pub net_id_string : String
  pub src_id : ℕ
  pub src_id_string : String
  pub dst_id : ℕ
  pub dst_id_string : String
  pub src_addr_anon : ℕ
  pub dst_addr_anon : ℕ
  pub src_addr_preserved_len : ℕ
  pub dst_addr_preserved_len : ℕ
  pub sampler_addr_anon : ℕ
  pub sampler_addr_preserved_prefix_len : ℕ
  pub next_hop_anon : ℕ
  pub next_hop_anon_preserved_prefix_len : ℕ
  pub med : ℕ
  pub local_pref : ℕ
  pub validation_status : ℕ
  pub remote_country : String
  pub src_country_bw : String
  pub dst_country_bw : String
  pub normalized : ℕ
  pub proto_name : String
  pub remote_addr : ℕ
  pub src_host_name : String
  pub dst_host_name : String
  pub next_hop_host_name : String
  pub src_as_name : String
  pub dst_as_name : String
  pub next_hop_as_name : String
  pub sampler_host_name : String
  pub src_if_name : String
  pub src_if_desc : String
  pub src_if_speed : ℕ
  pub dst_if_name : String
  pub dst_if_desc : String
  pub dst_if_speed : ℕ
  pub note : String
  pub source_ip : String
  pub destination_ip : String
  pub next_hop_ip : String
  pub sampler_ip : String
  pub source_mac : String
  pub destination_mac : String
  pub ingress_vrf_id_bw : ℕ
  pub egress_vrf_id_bw : ℕ
  pub time_flow_start : ℕ
  pub src_as_path : List ℕ
  pub dst_as_path : List ℕ
  pub unknown_fields : Bytes
  pub size_cache : ℕ

-- `&pb.EnrichedFlow{}`.
abbrev pub empty_flow : Flow
empty_flow = record {
  type = 0;
  time_received = 0;
  time_received_ns = 0;
  sequence_num = 0;
  sampling_rate = 0;
  flow_direction = 0;
  time_flow_start_ns = 0;
  time_flow_end_ns = 0;
  sampler_address = none;
  time_flow_end = 0;
  time_flow_start_ms = 0;
  time_flow_end_ms = 0;
  bytes = 0;
  packets = 0;
  src_addr = none;
  dst_addr = none;
  etype = 0;
  proto = 0;
  src_port = 0;
  dst_port = 0;
  in_if = 0;
  out_if = 0;
  src_mac = 0;
  dst_mac = 0;
  src_vlan = 0;
  dst_vlan = 0;
  vlan_id = 0;
  ingress_vrf_id = 0;
  egress_vrf_id = 0;
  ip_tos = 0;
  forwarding_status = 0;
  ip_ttl = 0;
  ip_flags = 0;
  tcp_flags = 0;
  icmp_type = 0;
  icmp_code = 0;
  ipv6_flow_label = 0;
  fragment_id = 0;
  fragment_offset = 0;
  bi_flow_direction = 0;
  src_as = 0;
  dst_as = 0;
  next_hop = none;
  next_hop_as = 0;
  src_net = 0;
  dst_net = 0;
  bgp_next_hop = none;
  bgp_communities = [];
  as_path = [];
  mpls_ttl = [];
  mpls_label = [];
  mpls_ip = [];
  has_mpls = false;
  mpls_count = 0;
  mpls_1_ttl = 0;
  mpls_1_label = 0;
  mpls_2_ttl = 0;
  mpls_2_label = 0;
  mpls_3_ttl = 0;
  mpls_3_label = 0;
  mpls_last_ttl = 0;
  mpls_last_label = 0;
  mpls_label_ip = none;
  observation_domain_id = 0;
  observation_point_id = 0;
  src_country = "";
  dst_country = "";
  layer_stack = [];
  layer_size = [];
  ipv6_routing_header_addresses = [];
  ipv6_routing_header_seg_left = 0;
  packet_bytes_min = 0;
  packet_bytes_max = 0;
  packet_bytes_mean = 0;
  packet_bytes_std_dev = 0;
  packet_iat_min = 0;
  packet_iat_max = 0;
  packet_iat_mean = 0;
  packet_iat_std_dev = 0;
  header_bytes = 0;
  fin_flag_count = 0;
  syn_flag_count = 0;
  rst_flag_count = 0;
  psh_flag_count = 0;
  ack_flag_count = 0;
  urg_flag_count = 0;
  cwr_flag_count = 0;
  ece_flag_count = 0;
  payload_packets = 0;
  time_active_min = 0;
  time_active_max = 0;
  time_active_mean = 0;
  time_active_std_dev = 0;
  time_idle_min = 0;
  time_idle_max = 0;
  time_idle_mean = 0;
  time_idle_std_dev = 0;
  cid = 0;
  cid_string = "";
  src_cid = 0;
  dst_cid = 0;
  net_id = 0;
  net_id_string = "";
  src_id = 0;
  src_id_string = "";
  dst_id = 0;
  dst_id_string = "";
  src_addr_anon = 0;
  dst_addr_anon = 0;
  src_addr_preserved_len = 0;
  dst_addr_preserved_len = 0;
  sampler_addr_anon = 0;
  sampler_addr_preserved_prefix_len = 0;
  next_hop_anon = 0;
  next_hop_anon_preserved_prefix_len = 0;
  med = 0;
  local_pref = 0;
  validation_status = 0;
  remote_country = "";
  src_country_bw = "";
  dst_country_bw = "";
  normalized = 0;
  proto_name = "";
  remote_addr = 0;
  src_host_name = "";
  dst_host_name = "";
  next_hop_host_name = "";
  src_as_name = "";
  dst_as_name = "";
  next_hop_as_name = "";
  sampler_host_name = "";
  src_if_name = "";
  src_if_desc = "";
  src_if_speed = 0;
  dst_if_name = "";
  dst_if_desc = "";
  dst_if_speed = 0;
  note = "";
  source_ip = "";
  destination_ip = "";
  next_hop_ip = "";
  sampler_ip = "";
  source_mac = "";
  destination_mac = "";
  ingress_vrf_id_bw = 0;
  egress_vrf_id_bw = 0;
  time_flow_start = 0;
  src_as_path = [];
  dst_as_path = [];
  unknown_fields = none;
  size_cache = 0;
}
