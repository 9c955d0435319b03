-- ===== src/Flow/Status.antt =====
-- The methods of pb/enrichedflow.go. A missing key of a map reads as the empty text.
use flowpipeline.Base.{
  ℕ, ◌/◌, ◌+◌, ◌≡◌, Bool, true, false, ◌&&◌, ◌||◌, List, [], ◌∷◌, String, if◌then◌else◌, ltb, leb,
  ◌==◌, sub64, arith,
}
use flowpipeline.Flow.{Flow}

abbrev NumberNames : Type 0
NumberNames = List (ℕ × String)

number_name : NumberNames → ℕ → String
number_name [] n = ""
number_name ((k, s) ∷ m) n = if k == n then s else number_name m n

abbrev flow_direction_map : NumberNames
flow_direction_map = (0, "Incoming") ∷ (1, "Outgoing") ∷ []

abbrev etype_map : NumberNames
etype_map =
    (0x0800, "IPv4")
    ∷ (0x0806, "ARP")
    ∷ (0x0842, "Wake-on-LAN")
    ∷ (0x86DD, "IPv6")
    ∷ (0x8809, "Ethernet Slow Protocols (LACP)")
    ∷ (0x8847, "MPLS unicast")
    ∷ (0x8848, "MPLS multicast")
    ∷ (0x8863, "PPPoE Discovery Stage")
    ∷ (0x8864, "PPPoE Session Stage")
    ∷ (0x889A, "HyperSCSI (SCSI over Ethernet)")
    ∷ (0x88A2, "ATA over Ethernet")
    ∷ (0x88A4, "EtherCAT Protocol")
    ∷ (0x88CC, "LLDP")
    ∷ (0x88E5, "MAC Security")
    ∷ (0x8906, "Fibre Channel over Ethernet (FCoE)")
    ∷ (0x8914, "FCoE Initialization Protocol")
    ∷ (0x9000, "Ethernet Configuration Testing Protocol")
    ∷ []

abbrev forwarding_status_map : NumberNames
forwarding_status_map =
    (0, "Unknown")
    ∷ (64, "Forwarded (Unknown)")
    ∷ (65, "Forwarded (Fragmented)")
    ∷ (66, "Forwarded (Not Fragmented)")
    ∷ (128, "Dropped (Unknown)")
    ∷ (129, "Dropped (ACL Deny)")
    ∷ (130, "Dropped (ACL Drop)")
    ∷ (131, "Dropped (Unroutable)")
    ∷ (132, "Dropped (Adjacency)")
    ∷ (133, "Dropped (Fragmented and DF set)")
    ∷ (134, "Dropped (Bad Header Checksum)")
    ∷ (135, "Dropped (Bad Total Length)")
    ∷ (136, "Dropped (Bad Header Length)")
    ∷ (137, "Dropped (Bad TTL)")
    ∷ (138, "Dropped (Policer)")
    ∷ (139, "Dropped (WRED)")
    ∷ (140, "Dropped (RPF)")
    ∷ (141, "Dropped (For Us)")
    ∷ (142, "Dropped (Bad Output Interface)")
    ∷ (143, "Dropped (Hardware)")
    ∷ (192, "Consumed (Unknown)")
    ∷ (193, "Consumed (Terminate Punt Adjacency)")
    ∷ (194, "Consumed (Terminate Incomplete Adjacency)")
    ∷ (195, "Consumed (Terminate For Us)")
    ∷ []

unfoldable flow_direction_string : Flow → String
unfolding number_name
flow_direction_string flow = number_name flow_direction_map flow.flow_direction

unfoldable is_incoming : Flow → Bool
is_incoming flow = flow.flow_direction == 0

unfoldable is_outgoing : Flow → Bool
is_outgoing flow = flow.flow_direction == 1

unfoldable peer : Flow → String
peer flow =
    if flow.flow_direction == 0
    then flow.src_if_desc
    else if flow.flow_direction == 1
    then flow.dst_if_desc
    else ""

unfoldable etype_string : Flow → String
unfolding number_name
etype_string flow = number_name etype_map flow.etype

unfoldable ip_version : Flow → ℕ
ip_version flow = if flow.etype == 0x0800 then 4 else if flow.etype == 0x86dd then 6 else 0

unfoldable ip_version_string : Flow → String
unfolding number_name
ip_version_string flow =
    if (flow.etype == 0x800) || (flow.etype == 0x86dd) then number_name etype_map flow.etype else ""

unfoldable is_ipv4 : Flow → Bool
is_ipv4 flow = flow.etype == 0x0800

unfoldable is_ipv6 : Flow → Bool
is_ipv6 flow = flow.etype == 0x86dd

unfoldable forwarding_status_string : Flow → String
unfolding number_name
forwarding_status_string flow = number_name forwarding_status_map flow.forwarding_status

unfoldable pub is_consumed : Flow → Bool
is_consumed flow = leb 192 flow.forwarding_status

unfoldable pub is_dropped : Flow → Bool
is_dropped flow = leb 128 flow.forwarding_status && ltb flow.forwarding_status 192

unfoldable pub is_forwarded : Flow → Bool
is_forwarded flow = leb 64 flow.forwarding_status && ltb flow.forwarding_status 128

unfoldable pub is_unknown_forwarding_status : Flow → Bool
is_unknown_forwarding_status flow = ltb flow.forwarding_status 64

abbrev pub count_true : List Bool → ℕ
count_true [] = 0
count_true (true ∷ bs) = 1 + count_true bs
count_true (false ∷ bs) = count_true bs

-- Every flow has exactly one of the four forwarding states.
pub forwarding_status_partition :
    (f : Flow)
    → count_true
        (is_unknown_forwarding_status f ∷ is_forwarded f ∷ is_dropped f ∷ is_consumed f ∷ [])
      ≡ 1
unfolding is_unknown_forwarding_status is_forwarded is_dropped is_consumed
forwarding_status_partition f = ground arith

-- `GetBps` and `GetPps`: `duration` wraps where the flow ends before it starts.
abbrev duration : Flow → ℕ
duration flow = let d = sub64 flow.time_flow_end flow.time_flow_start in if d == 0 then 1 else d

unfoldable get_bps : Flow → ℕ
get_bps flow = flow.bytes / duration flow

unfoldable get_pps : Flow → ℕ
get_pps flow = flow.packets / duration flow
