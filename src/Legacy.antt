-- ===== src/Legacy.antt =====
-- pb/legacyenrichedflow.pb.go and pb/legacyconverter.go: the older message format and the
-- conversions. `scale` is the float arithmetic of the time fields (see Flow/Timestamps).
mod RoundTrip
mod Tests
use Prim.Native.String.{String}
use flowpipeline.Base.{ℕ, List, Bool}
use flowpipeline.Flow.{Bytes, Flow, empty_flow}
use flowpipeline.Flow.Timestamps.{Factor, sync_missing_time_stamps}

pub record LegacyFlow : Type 0 where
  pub type : ℕ
  pub time_received : ℕ
  pub sequence_num : ℕ
  pub sampling_rate : ℕ
  pub flow_direction : ℕ
  pub sampler_address : Bytes
  pub time_flow_start : ℕ
  pub time_flow_end : ℕ
  pub bytes : ℕ
  pub packets : ℕ
  pub src_addr : Bytes
  pub dst_addr : Bytes
  pub etype : ℕ
  pub proto : ℕ
  pub src_port : ℕ
  pub dst_port : ℕ
  pub in_if : ℕ
  pub out_if : ℕ
  pub src_mac : ℕ
  pub dst_mac : ℕ
  pub src_vlan : ℕ
  pub dst_vlan : ℕ
  pub vlan_id : ℕ
  pub ingress_vrf_id : ℕ
  pub egress_vrf_id : ℕ
  pub ip_tos : ℕ
  pub forwarding_status : ℕ
  pub ip_ttl : ℕ
  pub tcp_flags : ℕ
  pub icmp_type : ℕ
  pub icmp_code : ℕ
  pub ipv6_flow_label : ℕ
  pub fragment_id : ℕ
  pub fragment_offset : ℕ
  pub bi_flow_direction : ℕ
  pub src_as : ℕ
  pub dst_as : ℕ
  pub next_hop : Bytes
  pub next_hop_as : ℕ
  pub src_net : ℕ
  pub dst_net : ℕ
  pub has_mpls : Bool
  pub mpls_count : ℕ
  pub mpls1_ttl : ℕ
  pub mpls1_label : ℕ
  pub mpls2_ttl : ℕ
  pub mpls2_label : ℕ
  pub mpls3_ttl : ℕ
  pub mpls3_label : ℕ
  pub mpls_last_ttl : ℕ
  pub mpls_last_label : ℕ
  pub packet_bytes_min : ℕ
  pub packet_bytes_max : ℕ
  pub packet_bytes_mean : ℕ
  pub packet_bytes_std_dev : ℕ
  pub packet_iat_min : ℕ
  pub packet_iat_max : ℕ
  pub packet_iat_mean : ℕ
  pub packet_iat_std_dev : ℕ
  pub header_bytes : ℕ
  pub fin_flag_count : ℕ
  pub syn_flag_count : ℕ
  pub rst_flag_count : ℕ
  pub psh_flag_count : ℕ
  pub ack_flag_count : ℕ
  pub urg_flag_count : ℕ
  pub cwr_flag_count : ℕ
  pub ece_flag_count : ℕ
  pub payload_packets : ℕ
  pub time_active_min : ℕ
  pub time_active_max : ℕ
  pub time_active_mean : ℕ
  pub time_active_std_dev : ℕ
  pub time_idle_min : ℕ
  pub time_idle_max : ℕ
  pub time_idle_mean : ℕ
  pub time_idle_std_dev : ℕ
  pub cid : ℕ
  pub cid_string : String
  pub src_cid : ℕ
  pub dst_cid : ℕ
  pub net_id : ℕ
  pub net_id_string : String
  pub src_id : ℕ
  pub src_id_string : String
  pub dst_id : ℕ
  pub dst_id_string : String
  pub src_addr_anon : ℕ
  pub dst_addr_anon : ℕ
  pub src_addr_preserved_len : ℕ
  pub dst_addr_preserved_len : ℕ
  pub sampler_addr_anon : ℕ
  pub sampler_addr_preserved_prefix_len : ℕ
  pub as_path : List ℕ
  pub med : ℕ
  pub local_pref : ℕ
  pub validation_status : ℕ
  pub remote_country : String
  pub src_country : String
  pub dst_country : String
  pub normalized : ℕ
  pub proto_name : String
  pub remote_addr : ℕ
  pub src_host_name : String
  pub dst_host_name : String
  pub next_hop_host_name : String
  pub src_as_name : String
  pub dst_as_name : String
  pub next_hop_as_name : String
  pub sampler_host_name : String
  pub src_if_name : String
  pub src_if_desc : String
  pub src_if_speed : ℕ
  pub dst_if_name : String
  pub dst_if_desc : String
  pub dst_if_speed : ℕ
  pub note : String
  pub source_ip : String
  pub destination_ip : String
  pub next_hop_ip : String
  pub sampler_ip : String
  pub source_mac : String
  pub destination_mac : String
  pub unknown_fields : Bytes
  pub size_cache : ℕ

-- The literal that `ConvertToEnrichedFlow` builds: fields that it does not name are zero.
unfoldable pub enriched_literal : LegacyFlow → Flow
enriched_literal legacy = record empty_flow {
  type = legacy.type;
  time_received = legacy.time_received;
  sequence_num = legacy.sequence_num;
  sampling_rate = legacy.sampling_rate;
  flow_direction = legacy.flow_direction;
  sampler_address = legacy.sampler_address;
  time_flow_start = legacy.time_flow_start;
  time_flow_end = legacy.time_flow_end;
  bytes = legacy.bytes;
  packets = legacy.packets;
  src_addr = legacy.src_addr;
  dst_addr = legacy.dst_addr;
  etype = legacy.etype;
  proto = legacy.proto;
  src_port = legacy.src_port;
  dst_port = legacy.dst_port;
  in_if = legacy.in_if;
  out_if = legacy.out_if;
  src_mac = legacy.src_mac;
  dst_mac = legacy.dst_mac;
  src_vlan = legacy.src_vlan;
  dst_vlan = legacy.dst_vlan;
  vlan_id = legacy.vlan_id;
  ingress_vrf_id = legacy.ingress_vrf_id;
  egress_vrf_id = legacy.egress_vrf_id;
  ip_tos = legacy.ip_tos;
  forwarding_status = legacy.forwarding_status;
  ip_ttl = legacy.ip_ttl;
  tcp_flags = legacy.tcp_flags;
  icmp_type = legacy.icmp_type;
  icmp_code = legacy.icmp_code;
  ipv6_flow_label = legacy.ipv6_flow_label;
  fragment_id = legacy.fragment_id;
  fragment_offset = legacy.fragment_offset;
  bi_flow_direction = legacy.bi_flow_direction;
  src_as = legacy.src_as;
  dst_as = legacy.dst_as;
  next_hop = legacy.next_hop;
  next_hop_as = legacy.next_hop_as;
  src_net = legacy.src_net;
  dst_net = legacy.dst_net;
  has_mpls = legacy.has_mpls;
  mpls_count = legacy.mpls_count;
  mpls_1_ttl = legacy.mpls1_ttl;
  mpls_1_label = legacy.mpls1_label;
  mpls_2_ttl = legacy.mpls2_ttl;
  mpls_2_label = legacy.mpls2_label;
  mpls_3_ttl = legacy.mpls3_ttl;
  mpls_3_label = legacy.mpls3_label;
  mpls_last_ttl = legacy.mpls_last_ttl;
  mpls_last_label = legacy.mpls_last_label;
  src_country = legacy.src_country;
  dst_country = legacy.dst_country;
  as_path = legacy.as_path;
  size_cache = legacy.size_cache;
  unknown_fields = legacy.unknown_fields;
  packet_bytes_min = legacy.packet_bytes_min;
  packet_bytes_max = legacy.packet_bytes_max;
  packet_bytes_mean = legacy.packet_bytes_mean;
  packet_bytes_std_dev = legacy.packet_bytes_std_dev;
  packet_iat_min = legacy.packet_iat_min;
  packet_iat_max = legacy.packet_iat_max;
  packet_iat_mean = legacy.packet_iat_mean;
  packet_iat_std_dev = legacy.packet_iat_std_dev;
  header_bytes = legacy.header_bytes;
  fin_flag_count = legacy.fin_flag_count;
  syn_flag_count = legacy.syn_flag_count;
  rst_flag_count = legacy.rst_flag_count;
  psh_flag_count = legacy.psh_flag_count;
  ack_flag_count = legacy.ack_flag_count;
  urg_flag_count = legacy.urg_flag_count;
  cwr_flag_count = legacy.cwr_flag_count;
  ece_flag_count = legacy.ece_flag_count;
  payload_packets = legacy.payload_packets;
  time_active_min = legacy.time_active_min;
  time_active_max = legacy.time_active_max;
  time_active_mean = legacy.time_active_mean;
  time_active_std_dev = legacy.time_active_std_dev;
  time_idle_min = legacy.time_idle_min;
  time_idle_max = legacy.time_idle_max;
  time_idle_mean = legacy.time_idle_mean;
  time_idle_std_dev = legacy.time_idle_std_dev;
  cid = legacy.cid;
  cid_string = legacy.cid_string;
  src_cid = legacy.src_cid;
  dst_cid = legacy.dst_cid;
  net_id = legacy.net_id;
  net_id_string = legacy.net_id_string;
  src_id = legacy.src_id;
  src_id_string = legacy.src_id_string;
  dst_id = legacy.dst_id;
  dst_id_string = legacy.dst_id_string;
  src_addr_anon = legacy.src_addr_anon;
  dst_addr_anon = legacy.dst_addr_anon;
  src_addr_preserved_len = legacy.src_addr_preserved_len;
  dst_addr_preserved_len = legacy.dst_addr_preserved_len;
  sampler_addr_anon = legacy.sampler_addr_anon;
  sampler_addr_preserved_prefix_len = legacy.sampler_addr_preserved_prefix_len;
  med = legacy.med;
  local_pref = legacy.local_pref;
  validation_status = legacy.validation_status;
  remote_country = legacy.remote_country;
  normalized = legacy.normalized;
  proto_name = legacy.proto_name;
  remote_addr = legacy.remote_addr;
  src_host_name = legacy.src_host_name;
  dst_host_name = legacy.dst_host_name;
  next_hop_host_name = legacy.next_hop_host_name;
  src_as_name = legacy.src_as_name;
  dst_as_name = legacy.dst_as_name;
  next_hop_as_name = legacy.next_hop_as_name;
  sampler_host_name = legacy.sampler_host_name;
  src_if_name = legacy.src_if_name;
  src_if_desc = legacy.src_if_desc;
  src_if_speed = legacy.src_if_speed;
  dst_if_name = legacy.dst_if_name;
  dst_if_desc = legacy.dst_if_desc;
  dst_if_speed = legacy.dst_if_speed;
  note = legacy.note;
  source_ip = legacy.source_ip;
  destination_ip = legacy.destination_ip;
  next_hop_ip = legacy.next_hop_ip;
  sampler_ip = legacy.sampler_ip;
  source_mac = legacy.source_mac;
  destination_mac = legacy.destination_mac;
}

-- The literal that `ConvertToLegacyEnrichedFlow` builds of the synchronised flow.
unfoldable pub legacy_literal : Flow → LegacyFlow
legacy_literal flow = record {
  type = flow.type;
  time_received = flow.time_received;
  sequence_num = flow.sequence_num;
  sampling_rate = flow.sampling_rate;
  flow_direction = flow.flow_direction;
  sampler_address = flow.sampler_address;
  bytes = flow.bytes;
  packets = flow.packets;
  src_addr = flow.src_addr;
  dst_addr = flow.dst_addr;
  etype = flow.etype;
  proto = flow.proto;
  src_port = flow.src_port;
  dst_port = flow.dst_port;
  in_if = flow.in_if;
  out_if = flow.out_if;
  src_mac = flow.src_mac;
  dst_mac = flow.dst_mac;
  src_vlan = flow.src_vlan;
  dst_vlan = flow.dst_vlan;
  vlan_id = flow.vlan_id;
  ingress_vrf_id = flow.ingress_vrf_id;
  egress_vrf_id = flow.egress_vrf_id;
  ip_tos = flow.ip_tos;
  forwarding_status = flow.forwarding_status;
  ip_ttl = flow.ip_ttl;
  tcp_flags = flow.tcp_flags;
  icmp_type = flow.icmp_type;
  icmp_code = flow.icmp_code;
  ipv6_flow_label = flow.ipv6_flow_label;
  fragment_id = flow.fragment_id;
  fragment_offset = flow.fragment_offset;
  bi_flow_direction = flow.bi_flow_direction;
  src_as = flow.src_as;
  dst_as = flow.dst_as;
  next_hop = flow.next_hop;
  next_hop_as = flow.next_hop_as;
  src_net = flow.src_net;
  dst_net = flow.dst_net;
  has_mpls = flow.has_mpls;
  mpls_count = flow.mpls_count;
  mpls1_ttl = flow.mpls_1_ttl;
  mpls1_label = flow.mpls_1_label;
  mpls2_ttl = flow.mpls_2_ttl;
  mpls2_label = flow.mpls_2_label;
  mpls3_ttl = flow.mpls_3_ttl;
  mpls3_label = flow.mpls_3_label;
  mpls_last_ttl = flow.mpls_last_ttl;
  mpls_last_label = flow.mpls_last_label;
  src_country = flow.src_country;
  dst_country = flow.dst_country;
  time_flow_start = flow.time_flow_start;
  time_flow_end = flow.time_flow_end;
  as_path = flow.as_path;
  size_cache = flow.size_cache;
  unknown_fields = flow.unknown_fields;
  packet_bytes_min = flow.packet_bytes_min;
  packet_bytes_max = flow.packet_bytes_max;
  packet_bytes_mean = flow.packet_bytes_mean;
  packet_bytes_std_dev = flow.packet_bytes_std_dev;
  packet_iat_min = flow.packet_iat_min;
  packet_iat_max = flow.packet_iat_max;
  packet_iat_mean = flow.packet_iat_mean;
  packet_iat_std_dev = flow.packet_iat_std_dev;
  header_bytes = flow.header_bytes;
  fin_flag_count = flow.fin_flag_count;
  syn_flag_count = flow.syn_flag_count;
  rst_flag_count = flow.rst_flag_count;
  psh_flag_count = flow.psh_flag_count;
  ack_flag_count = flow.ack_flag_count;
  urg_flag_count = flow.urg_flag_count;
  cwr_flag_count = flow.cwr_flag_count;
  ece_flag_count = flow.ece_flag_count;
  payload_packets = flow.payload_packets;
  time_active_min = flow.time_active_min;
  time_active_max = flow.time_active_max;
  time_active_mean = flow.time_active_mean;
  time_active_std_dev = flow.time_active_std_dev;
  time_idle_min = flow.time_idle_min;
  time_idle_max = flow.time_idle_max;
  time_idle_mean = flow.time_idle_mean;
  time_idle_std_dev = flow.time_idle_std_dev;
  cid = flow.cid;
  cid_string = flow.cid_string;
  src_cid = flow.src_cid;
  dst_cid = flow.dst_cid;
  net_id = flow.net_id;
  net_id_string = flow.net_id_string;
  src_id = flow.src_id;
  src_id_string = flow.src_id_string;
  dst_id = flow.dst_id;
  dst_id_string = flow.dst_id_string;
  src_addr_anon = flow.src_addr_anon;
  dst_addr_anon = flow.dst_addr_anon;
  src_addr_preserved_len = flow.src_addr_preserved_len;
  dst_addr_preserved_len = flow.dst_addr_preserved_len;
  sampler_addr_anon = flow.sampler_addr_anon;
  sampler_addr_preserved_prefix_len = flow.sampler_addr_preserved_prefix_len;
  med = flow.med;
  local_pref = flow.local_pref;
  validation_status = flow.validation_status;
  remote_country = flow.remote_country;
  normalized = flow.normalized;
  proto_name = flow.proto_name;
  remote_addr = flow.remote_addr;
  src_host_name = flow.src_host_name;
  dst_host_name = flow.dst_host_name;
  next_hop_host_name = flow.next_hop_host_name;
  src_as_name = flow.src_as_name;
  dst_as_name = flow.dst_as_name;
  next_hop_as_name = flow.next_hop_as_name;
  sampler_host_name = flow.sampler_host_name;
  src_if_name = flow.src_if_name;
  src_if_desc = flow.src_if_desc;
  src_if_speed = flow.src_if_speed;
  dst_if_name = flow.dst_if_name;
  dst_if_desc = flow.dst_if_desc;
  dst_if_speed = flow.dst_if_speed;
  note = flow.note;
  source_ip = flow.source_ip;
  destination_ip = flow.destination_ip;
  next_hop_ip = flow.next_hop_ip;
  sampler_ip = flow.sampler_ip;
  source_mac = flow.source_mac;
  destination_mac = flow.destination_mac;
}

module _ (scale : Factor → ℕ → ℕ) where
  unfoldable pub convert_to_enriched_flow : LegacyFlow → Flow
  unfolding enriched_literal
  convert_to_enriched_flow legacy = sync_missing_time_stamps scale (enriched_literal legacy)

  -- The receiver is synchronised in place, so the flow that is left is returned too.
  unfoldable pub convert_to_legacy_enriched_flow : Flow → LegacyFlow × Flow
  unfolding legacy_literal
  convert_to_legacy_enriched_flow flow =
      let synced = sync_missing_time_stamps scale flow in (legacy_literal synced, synced)
