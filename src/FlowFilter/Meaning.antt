-- ===== src/FlowFilter/Meaning.antt =====
-- What a filter expression means: a description that reads no field that the visitor writes.
pub mod Leaves
pub mod Sides
pub mod Walk
use Prim.Native.Nat.{bit_and}
use flowpipeline.Base.{
  ℕ, ◌/◌, ◌%◌, ◌≡◌, ◌≢◌, ◌⊎◌, ◌≤◌, ◌<◌, Bool, true, false, ◌&&◌, ◌||◌, not, List, [], ◌∷◌, Option,
  none, some, String, str_eq, if◌then◌else◌, ltb, ◌==◌, length, mul64, sub64, u32,
}
use flowpipeline.Flow.{Flow, Bytes}
use flowpipeline.Flow.Ip.{to4, is_nil, cidr_mask, net_contains, ip_equal}
use flowpipeline.FlowFilter.Nodes.{
  NumericRange, SidedRangeMatch, AddressMatch, ValueMatch, IcmpMatch, InterfaceMatch, RegularMatch,
  DirectionalMatch, RegularMatchGroup, DirectionalMatchGroup, Expression, Statement, empty, single,
  joined, directional, regular, sub, Status, fine, bad_range, nil_pointer,
}
use flowpipeline.FlowFilter.Leaves.{Texts}

-- A number as a condition: less, greater or (without one of these two signs) equal.
abbrev satisfies : Option String → Option ℕ → ℕ → Bool
satisfies sign none n = false
satisfies none (some m) n = n == m
satisfies (some sign) (some m) n =
    if str_eq sign "<" then ltb n m else if str_eq sign ">" then ltb m n else n == m

-- Neither below the lower bound nor above the upper one; without both, as the number says.
abbrev within : Option ℕ → Option ℕ → NumericRange → ℕ → Bool
within (some lower) (some upper) r n = not (ltb n lower || ltb upper n)
within (some lower) none r n = satisfies r.unary r.number n
within none upper r n = satisfies r.unary r.number n

unfoldable pub in_range : NumericRange → ℕ → Bool
in_range r n = within r.lower r.upper r n

-- The seconds of a flow, and an amount over them, where no second counts as one.
abbrev pub seconds : Flow → ℕ
seconds flow = sub64 flow.time_flow_end flow.time_flow_start

abbrev pub per_second : Flow → ℕ → ℕ
per_second flow n = n / (if seconds flow == 0 then 1 else seconds flow)

-- The word `not` before a statement.
abbrev pub says : Option Bool → Bool → Bool
says (some true) holds = not holds
says (some false) holds = holds
says none holds = holds

-- The status of a range, which depends on its pointers and bounds alone.
abbrev number_status : Option ℕ → Status
number_status none = nil_pointer
number_status (some n) = fine

abbrev bounds_status : Option ℕ → Option ℕ → Option ℕ → Status
bounds_status number (some lower) (some upper) = if ltb upper lower then bad_range else fine
bounds_status number (some lower) none = number_status number
bounds_status number none upper = number_status number

abbrev pub range_status : NumericRange → Status
range_status r = bounds_status r.number r.lower r.upper

abbrev pub HasValue : ValueMatch → Type 0
HasValue m = (m.value ≢ none) ⊎ (m.key ≢ none)

abbrev pub HasCode : IcmpMatch → Type 0
HasCode m = (m.type ≢ none) ⊎ (m.code ≢ none)

abbrev value_of : ValueMatch → ℕ
value_of m = elim m.value [ some v ↦ v | none ↦ elim m.key [ some k ↦ k | none ↦ 0 ] ]

-- A value is compared whole, a key as a mask.
abbrev mask_holds : ℕ → ValueMatch → Bool
mask_holds n m = elim m.value [
  | some v ↦ n == u32 v
  | none ↦ elim m.key [ some k ↦ bit_and n (u32 k) == u32 k | none ↦ false ]
]

abbrev icmp_holds : IcmpMatch → ℕ → Bool
icmp_holds m port = elim m.type [
  | some t ↦ u32 t == port / 256
  | none ↦ elim m.code [ some c ↦ u32 c == port % 256 | none ↦ false ]
]

abbrev rpki_holds : ℕ → Option ℕ → Bool
rpki_holds status none = false
rpki_holds status (some k) = status == k

-- Do the numbers, as 32-bit words, stand at the head of the path?
unfoldable pub begins : List ℕ → List ℕ → Bool
begins [] path = true
begins (v ∷ vs) [] = false
begins (v ∷ vs) (b ∷ bs) = if v % 4294967296 == b then begins vs bs else false

-- Do the numbers stand somewhere in the path, one after the other?
unfoldable pub infix_of : List ℕ → List ℕ → Bool
infix_of numbers [] = false
infix_of numbers (asn ∷ path) = begins numbers (asn ∷ path) || infix_of numbers path

module _ (texts : Texts) (flow : Flow) where
  abbrev pub holds_regular : RegularMatch → Bool
  holds_regular (RegularMatch.router m) = ip_equal flow.sampler_address m.address
  holds_regular (RegularMatch.next_hop m) = ip_equal flow.next_hop m.address
  holds_regular (RegularMatch.next_hop_asn m) = flow.next_hop_as == m.asn
  holds_regular (RegularMatch.bytes m) = in_range m.range flow.bytes
  holds_regular (RegularMatch.packets m) = in_range m.range flow.packets
  holds_regular (RegularMatch.remote_country m) =
      texts.contains flow.remote_country (texts.to_upper m.text)
  holds_regular (RegularMatch.flow_direction m) =
      if str_eq m.text "incoming" then flow.flow_direction == 0 else flow.flow_direction == 1
  holds_regular (RegularMatch.normalized m) = flow.normalized == 1
  holds_regular (RegularMatch.duration m) = in_range m.range (seconds flow)
  holds_regular (RegularMatch.etype m) = flow.etype == u32 (value_of m)
  holds_regular (RegularMatch.proto m) = flow.proto == u32 (value_of m)
  holds_regular (RegularMatch.status m) = mask_holds flow.forwarding_status m
  holds_regular (RegularMatch.tcp_flags m) = (flow.proto == 6) && mask_holds flow.tcp_flags m
  holds_regular (RegularMatch.ip_tos m) = in_range m.range flow.ip_tos
  holds_regular (RegularMatch.local_pref m) = in_range m.range flow.local_pref
  holds_regular (RegularMatch.med m) = in_range m.range flow.med
  holds_regular (RegularMatch.dscp m) = flow.ip_tos / 4 == u32 (value_of m)
  holds_regular (RegularMatch.ecn m) = flow.ip_tos % 4 == u32 (value_of m)
  holds_regular (RegularMatch.sampling_rate m) = in_range m.range flow.sampling_rate
  holds_regular (RegularMatch.icmp m) = (flow.proto == 1) && icmp_holds m flow.dst_port
  holds_regular (RegularMatch.bps m) = in_range m.range (per_second flow (mul64 flow.bytes 8))
  holds_regular (RegularMatch.pps m) = in_range m.range (per_second flow flow.packets)
  holds_regular (RegularMatch.passes_through m) = infix_of m.numbers flow.as_path
  holds_regular (RegularMatch.rpki m) = rpki_holds flow.validation_status m.key

  abbrev holds_address : AddressMatch → Bytes → Bool
  holds_address m ip = elim m.mask [
    | none ↦ ip_equal ip m.address
    | some ones ↦
        net_contains m.address
          (if is_nil (to4 m.address) then cidr_mask ones 128 else cidr_mask ones 32) ip
  ]

  abbrev mentions : String → String → Bool
  mentions field text = texts.contains (texts.to_lower field) (texts.to_lower text)

  -- An interface by the number, name, description and speed that the flow has for it.
  abbrev holds_interface : InterfaceMatch → ℕ → String → String → ℕ → Bool
  holds_interface m id name description speed = elim m.snmp_id [
    | some i ↦ u32 i == id
    | none ↦ elim m.name [
      | some text ↦ mentions name text
      | none ↦ elim m.description [
        | some text ↦ mentions description text
        | none ↦ elim m.speed [ some s ↦ in_range s.range (speed / 1000) | none ↦ false ]
      ]
    ]
  ]

  abbrev pub holds_src : DirectionalMatch → Bool
  holds_src (DirectionalMatch.address m) = holds_address m flow.src_addr
  holds_src (DirectionalMatch.interface m) =
      holds_interface m flow.in_if flow.src_if_name flow.src_if_desc flow.src_if_speed
  holds_src (DirectionalMatch.port m) = in_range m.range flow.src_port
  holds_src (DirectionalMatch.asn m) = in_range m.range flow.src_as
  holds_src (DirectionalMatch.netsize m) = in_range m.range flow.src_net
  holds_src (DirectionalMatch.cid m) = in_range m.range flow.src_cid
  holds_src (DirectionalMatch.vrf m) = in_range m.range flow.ingress_vrf_id_bw

  abbrev pub holds_dst : DirectionalMatch → Bool
  holds_dst (DirectionalMatch.address m) = holds_address m flow.dst_addr
  holds_dst (DirectionalMatch.interface m) =
      holds_interface m flow.out_if flow.dst_if_name flow.dst_if_desc flow.dst_if_speed
  holds_dst (DirectionalMatch.port m) = in_range m.range flow.dst_port
  holds_dst (DirectionalMatch.asn m) = in_range m.range flow.dst_as
  holds_dst (DirectionalMatch.netsize m) = in_range m.range flow.dst_net
  holds_dst (DirectionalMatch.cid m) = in_range m.range flow.dst_cid
  holds_dst (DirectionalMatch.vrf m) = in_range m.range flow.egress_vrf_id_bw

  -- What holds of neither side: a customer id of the flow itself.
  abbrev holds_own : DirectionalMatch → Bool
  holds_own (DirectionalMatch.cid m) = in_range m.range flow.cid
  holds_own _ = false

  abbrev pub holds_directed : Option String → DirectionalMatch → Bool
  holds_directed none m = holds_own m || holds_src m || holds_dst m
  holds_directed (some direction) m = if str_eq direction "src" then holds_src m else holds_dst m

  unfoldable mutual
    pub holds : Expression → Bool
    holds (empty r) = true
    holds (single s r) = holds_statement s
    holds (joined s c e r) =
        if str_eq c "and" then holds_statement s && holds e else holds_statement s || holds e

    pub holds_statement : Statement → Bool
    holds_statement (directional n g r) = says n (holds_directed g.direction g.match)
    holds_statement (regular n g r) = says n (holds_regular g.match)
    holds_statement (sub n e r) = says n (holds e)

-- What the parser and the check in `New` are relied on for: each alternative has its value, and no
-- range is refused. (A bad `bps` range is not refused.)
abbrev pub WellFormedRegular : RegularMatch → Type 0
WellFormedRegular (RegularMatch.router m) = Unit {0}
WellFormedRegular (RegularMatch.next_hop m) = Unit {0}
WellFormedRegular (RegularMatch.next_hop_asn m) = Unit {0}
WellFormedRegular (RegularMatch.bytes m) = range_status m.range ≡ fine
WellFormedRegular (RegularMatch.packets m) = range_status m.range ≡ fine
WellFormedRegular (RegularMatch.remote_country m) = Unit {0}
WellFormedRegular (RegularMatch.flow_direction m) = (m.text ≡ "incoming") ⊎ (m.text ≡ "outgoing")
WellFormedRegular (RegularMatch.normalized m) = Unit {0}
WellFormedRegular (RegularMatch.duration m) = range_status m.range ≡ fine
WellFormedRegular (RegularMatch.etype m) = HasValue m
WellFormedRegular (RegularMatch.proto m) = HasValue m
WellFormedRegular (RegularMatch.status m) = HasValue m
WellFormedRegular (RegularMatch.tcp_flags m) = HasValue m
WellFormedRegular (RegularMatch.ip_tos m) = range_status m.range ≡ fine
WellFormedRegular (RegularMatch.local_pref m) = range_status m.range ≡ fine
WellFormedRegular (RegularMatch.med m) = range_status m.range ≡ fine
WellFormedRegular (RegularMatch.dscp m) = HasValue m
WellFormedRegular (RegularMatch.ecn m) = HasValue m
WellFormedRegular (RegularMatch.sampling_rate m) = range_status m.range ≡ fine
WellFormedRegular (RegularMatch.icmp m) = HasCode m
WellFormedRegular (RegularMatch.bps m) = range_status m.range ≢ nil_pointer
WellFormedRegular (RegularMatch.pps m) = range_status m.range ≡ fine
WellFormedRegular (RegularMatch.passes_through m) = Unit {0}
WellFormedRegular (RegularMatch.rpki m) = Unit {0}

abbrev pub WellFormedDirectional : DirectionalMatch → Type 0
WellFormedDirectional (DirectionalMatch.address m) = Unit {0}
WellFormedDirectional (DirectionalMatch.interface m) = elim m.speed [
  | none ↦ (m.snmp_id ≢ none) ⊎ (m.name ≢ none) ⊎ (m.description ≢ none)
  | some s ↦ range_status s.range ≡ fine
]
WellFormedDirectional (DirectionalMatch.port m) = range_status m.range ≡ fine
WellFormedDirectional (DirectionalMatch.asn m) = range_status m.range ≡ fine
WellFormedDirectional (DirectionalMatch.netsize m) = range_status m.range ≡ fine
WellFormedDirectional (DirectionalMatch.cid m) = range_status m.range ≡ fine
WellFormedDirectional (DirectionalMatch.vrf m) = range_status m.range ≡ fine

abbrev pub WellFormedDirection : Option String → Type 0
WellFormedDirection none = Unit
WellFormedDirection (some d) = (d ≡ "src") ⊎ (d ≡ "dst")

-- The flow has an AS path in which the numbers have room. (Other flows keep the result of the flow
-- before.)
abbrev pub DecidesRegular : Flow → RegularMatch → Type 0
DecidesRegular flow (RegularMatch.passes_through m) =
    (flow.as_path ≢ []) × (length m.numbers ≤ length flow.as_path)
DecidesRegular flow _ = Unit

-- The results taken off a node.
reset_speed : Option SidedRangeMatch → Option SidedRangeMatch
reset_speed none = none
reset_speed (some m) = some (record m { eval_result_src = false; eval_result_dst = false })

unfoldable pub reset_regular : RegularMatch → RegularMatch
reset_regular (RegularMatch.router m) = RegularMatch.router (record m { eval_result = false })
reset_regular (RegularMatch.next_hop m) = RegularMatch.next_hop (record m { eval_result = false })
reset_regular (RegularMatch.next_hop_asn m) =
    RegularMatch.next_hop_asn (record m { eval_result = false })
reset_regular (RegularMatch.bytes m) = RegularMatch.bytes (record m { eval_result = false })
reset_regular (RegularMatch.packets m) = RegularMatch.packets (record m { eval_result = false })
reset_regular (RegularMatch.remote_country m) =
    RegularMatch.remote_country (record m { eval_result = false })
reset_regular (RegularMatch.flow_direction m) =
    RegularMatch.flow_direction (record m { eval_result = false })
reset_regular (RegularMatch.normalized m) =
    RegularMatch.normalized (record m { eval_result = false })
reset_regular (RegularMatch.duration m) = RegularMatch.duration (record m { eval_result = false })
reset_regular (RegularMatch.etype m) = RegularMatch.etype (record m { eval_result = false })
reset_regular (RegularMatch.proto m) = RegularMatch.proto (record m { eval_result = false })
reset_regular (RegularMatch.status m) = RegularMatch.status (record m { eval_result = false })
reset_regular (RegularMatch.tcp_flags m) = RegularMatch.tcp_flags (record m { eval_result = false })
reset_regular (RegularMatch.ip_tos m) = RegularMatch.ip_tos (record m { eval_result = false })
reset_regular (RegularMatch.local_pref m) =
    RegularMatch.local_pref (record m { eval_result = false })
reset_regular (RegularMatch.med m) = RegularMatch.med (record m { eval_result = false })
reset_regular (RegularMatch.dscp m) = RegularMatch.dscp (record m { eval_result = false })
reset_regular (RegularMatch.ecn m) = RegularMatch.ecn (record m { eval_result = false })
reset_regular (RegularMatch.sampling_rate m) =
    RegularMatch.sampling_rate (record m { eval_result = false })
reset_regular (RegularMatch.icmp m) = RegularMatch.icmp (record m { eval_result = false })
reset_regular (RegularMatch.bps m) = RegularMatch.bps (record m { eval_result = false })
reset_regular (RegularMatch.pps m) = RegularMatch.pps (record m { eval_result = false })
reset_regular (RegularMatch.passes_through m) =
    RegularMatch.passes_through (record m { eval_result = false })
reset_regular (RegularMatch.rpki m) = RegularMatch.rpki (record m { eval_result = false })

unfoldable pub reset_directional : DirectionalMatch → DirectionalMatch
unfolding reset_speed
reset_directional (DirectionalMatch.address m) =
    DirectionalMatch.address (record m { eval_result_src = false; eval_result_dst = false })
reset_directional (DirectionalMatch.port m) =
    DirectionalMatch.port (record m { eval_result_src = false; eval_result_dst = false })
reset_directional (DirectionalMatch.asn m) =
    DirectionalMatch.asn (record m { eval_result_src = false; eval_result_dst = false })
reset_directional (DirectionalMatch.netsize m) =
    DirectionalMatch.netsize (record m { eval_result_src = false; eval_result_dst = false })
reset_directional (DirectionalMatch.vrf m) =
    DirectionalMatch.vrf (record m { eval_result_src = false; eval_result_dst = false })
reset_directional (DirectionalMatch.cid m) =
    DirectionalMatch.cid
      (record m { eval_result = false; eval_result_src = false; eval_result_dst = false })
reset_directional (DirectionalMatch.interface m) =
    DirectionalMatch.interface
      (record m { speed = reset_speed m.speed; eval_result_src = false; eval_result_dst = false })
