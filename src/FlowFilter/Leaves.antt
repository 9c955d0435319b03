-- ===== src/FlowFilter/Leaves.antt =====
-- visitor.go: the leaf cases of `Visit`. Each returns the node with its results written and how
-- the visit ends. `texts` is what the visitor uses of Go's `strings`.
use Prim.Native.Nat.{bit_and}
use flowpipeline.Base.{
  ℕ, ◌/◌, ◌%◌, ◌^◌, Bool, true, false, ◌&&◌, List, [], ◌∷◌, Option, none, some, String, str_eq,
  if◌then◌else◌, ltb, leb, ◌==◌, length, sub64, mul64, u32,
}
use flowpipeline.Flow.{Flow}
use flowpipeline.Flow.Ip.{to4, is_nil, cidr_mask, net_contains, ip_equal}
use flowpipeline.FlowFilter.Nodes.{
  NumericRange, RangeMatch, SidedRangeMatch, CidRangeMatch, AddressMatch, HopMatch, AsnMatch,
  ValueMatch, IcmpMatch, TextMatch, InterfaceMatch, NumbersMatch, KeyMatch, FlagMatch, Status, fine,
  bad_range, nil_pointer,
}

pub record Texts : Type 0 where
  pub contains : String → String → Bool
  pub to_lower : String → String
  pub to_upper : String → String

compare_unary : Option String → ℕ → ℕ → Bool
compare_unary none compare number = compare == number
compare_unary (some unary) compare number =
    if str_eq unary "<"
    then ltb compare number
    else if str_eq unary ">"
    then ltb number compare
    else compare == number

-- The comparison of a range that has no two bounds: the pointer `Number` is followed.
compare_number : Option String → Option ℕ → ℕ → Bool × Status
unfolding compare_unary
compare_number unary none compare = (false, nil_pointer)
compare_number unary (some number) compare = (compare_unary unary compare number, fine)

compare_bounds : NumericRange → Option ℕ → Option ℕ → ℕ → Bool × Status
unfolding compare_number
compare_bounds node (some lower) (some upper) compare =
    (leb lower compare && leb compare upper, if ltb upper lower then bad_range else fine)
compare_bounds node (some lower) none compare = compare_number node.unary node.number compare
compare_bounds node none upper compare = compare_number node.unary node.number compare

unfoldable pub process_numeric_range : NumericRange → ℕ → Bool × Status
unfolding compare_bounds
process_numeric_range node compare = compare_bounds node node.lower node.upper compare

-- A case with one result: the value is compared, and a bad range is reported.
unfoldable pub visit_range : ℕ → RangeMatch → RangeMatch × Status
unfolding process_numeric_range
visit_range value node =
    let (result, status) = process_numeric_range node.range value in
    (record node { eval_result = result }, status)

-- A case with a result for each side. The first error is dropped: it is the second one too.
unfoldable pub visit_sided_range : ℕ → ℕ → SidedRangeMatch → SidedRangeMatch × Status
unfolding process_numeric_range
visit_sided_range src dst node =
    let (result_src, status_src) = process_numeric_range node.range src in
    let (result_dst, status_dst) = process_numeric_range node.range dst in
    (record node { eval_result_src = result_src; eval_result_dst = result_dst }, status_dst)

abbrev pub uint64_duration : Flow → ℕ
uint64_duration flow = sub64 flow.time_flow_end flow.time_flow_start

abbrev pub or_one : ℕ → ℕ
or_one n = if n == 0 then 1 else n

module _ (flow : Flow) where
  unfoldable pub visit_address : AddressMatch → AddressMatch × Status
  visit_address node = (
    elim node.mask [
      | some ones ↦
          let mask = if is_nil (to4 node.address) then cidr_mask ones 128 else cidr_mask ones 32 in
          record node {
            eval_result_src = net_contains node.address mask flow.src_addr;
            eval_result_dst = net_contains node.address mask flow.dst_addr;
          }
      | none ↦ record node {
        eval_result_src = ip_equal flow.src_addr node.address;
        eval_result_dst = ip_equal flow.dst_addr node.address;
      }
    ],
    fine,
  )

  -- The error of a bad range is kept in `err` and not returned.
  unfoldable pub visit_bps : RangeMatch → RangeMatch × Status
  visit_bps node =
      let duration = or_one (uint64_duration flow) in
      let (node', status) = visit_range (mul64 flow.bytes 8 / duration) node in
      (node', elim status [ bad_range ↦ fine | other ↦ other ])

  unfoldable pub visit_pps : RangeMatch → RangeMatch × Status
  visit_pps node = visit_range (flow.packets / or_one (uint64_duration flow)) node

  unfoldable pub visit_duration : RangeMatch → RangeMatch × Status
  visit_duration node = visit_range (uint64_duration flow) node

  unfoldable pub visit_cid : CidRangeMatch → CidRangeMatch × Status
  unfolding process_numeric_range
  visit_cid node =
      let (result, status) = process_numeric_range node.range flow.cid in
      let (result_src, status_src) = process_numeric_range node.range flow.src_cid in
      let (result_dst, status_dst) = process_numeric_range node.range flow.dst_cid in
      (
        record node {
          eval_result = result;
          eval_result_src = result_src;
          eval_result_dst = result_dst;
        },
        status_dst,
      )

  -- `switch` on the value and the key of a node: with neither, the old result stays.
  abbrev on_value : ValueMatch → (ℕ → Bool) → (ℕ → Bool) → ValueMatch × Status
  on_value node by_value by_key = (
    elim node.value [
      | some v ↦ record node { eval_result = by_value v }
      | none ↦ elim node.key [ some k ↦ record node { eval_result = by_key k } | none ↦ node ]
    ],
    fine,
  )

  unfoldable pub visit_dscp : ValueMatch → ValueMatch × Status
  visit_dscp node =
      on_value node (λ v. flow.ip_tos / 2 ^ 2 == u32 v) (λ k. flow.ip_tos / 2 ^ 2 == u32 k)

  unfoldable pub visit_ecn : ValueMatch → ValueMatch × Status
  visit_ecn node = on_value node (λ v. flow.ip_tos % 4 == u32 v) (λ k. flow.ip_tos % 4 == u32 k)

  unfoldable pub visit_etype : ValueMatch → ValueMatch × Status
  visit_etype node = on_value node (λ v. flow.etype == u32 v) (λ k. flow.etype == u32 k)

  unfoldable pub visit_proto : ValueMatch → ValueMatch × Status
  visit_proto node = on_value node (λ v. flow.proto == u32 v) (λ k. flow.proto == u32 k)

  unfoldable pub visit_status : ValueMatch → ValueMatch × Status
  visit_status node =
      on_value node (λ v. flow.forwarding_status == u32 v)
        (λ k. bit_and flow.forwarding_status (u32 k) == u32 k)

  unfoldable pub visit_tcp_flags : ValueMatch → ValueMatch × Status
  visit_tcp_flags node =
      if flow.proto == 6
      then on_value node (λ v. flow.tcp_flags == u32 v)
          (λ k. bit_and flow.tcp_flags (u32 k) == u32 k)
      else (record node { eval_result = false }, fine)

  unfoldable pub visit_flow_direction : TextMatch → TextMatch × Status
  visit_flow_direction node = (
    if str_eq node.text "incoming"
        then record node { eval_result = flow.flow_direction == 0 }
        else if str_eq node.text "outgoing"
        then record node { eval_result = flow.flow_direction == 1 }
        else node,
    fine,
  )

  unfoldable pub visit_icmp : IcmpMatch → IcmpMatch × Status
  visit_icmp node =
      if flow.proto == 1
      then (
        elim node.type [
          | some t ↦ record node { eval_result = u32 t == flow.dst_port / 256 }
          | none ↦ elim node.code [
            | some c ↦ record node { eval_result = u32 c == flow.dst_port % 256 }
            | none ↦ node
          ]
        ],
        fine,
      )
      else (record node { eval_result = false }, fine)

  unfoldable pub visit_if_speed : SidedRangeMatch → SidedRangeMatch × Status
  visit_if_speed node = visit_sided_range (flow.src_if_speed / 1000) (flow.dst_if_speed / 1000) node

  unfoldable pub visit_next_hop : HopMatch → HopMatch × Status
  visit_next_hop node = (record node { eval_result = ip_equal flow.next_hop node.address }, fine)

  unfoldable pub visit_router : HopMatch → HopMatch × Status
  visit_router node =
      (record node { eval_result = ip_equal flow.sampler_address node.address }, fine)

  unfoldable pub visit_next_hop_asn : AsnMatch → AsnMatch × Status
  visit_next_hop_asn node = (record node { eval_result = flow.next_hop_as == node.asn }, fine)

  unfoldable pub visit_normalized : FlagMatch → FlagMatch × Status
  visit_normalized node = (record node { eval_result = flow.normalized == 1 }, fine)

  unfoldable pub visit_rpki : KeyMatch → KeyMatch × Status
  visit_rpki node = (
    record node {
      eval_result = elim node.key [ none ↦ false | some k ↦ flow.validation_status == k ];
    },
    fine,
  )

-- `sliceEq`, on the part of the path that begins at the index.
unfoldable pub slice_eq : List ℕ → List ℕ → Bool
slice_eq [] path = true
slice_eq (v ∷ vs) [] = false
slice_eq (v ∷ vs) (b ∷ bs) = (u32 v == b) && slice_eq vs bs

-- The loop over the indices of the path, with the result as it stands.
unfoldable pub passes_from : List ℕ → List ℕ → Bool → Bool
passes_from numbers [] result = result
passes_from numbers (asn ∷ path) result =
    let rest = passes_from numbers path false in
    if ltb (length (asn ∷ path)) (length numbers)
    then result
    else if slice_eq numbers (asn ∷ path)
    then true
    else rest

unfoldable pub visit_passes_through : Flow → NumbersMatch → NumbersMatch × Status
unfolding passes_from
visit_passes_through flow node =
    (record node { eval_result = passes_from node.numbers flow.as_path node.eval_result }, fine)

module _ (texts : Texts) (flow : Flow) where
  unfoldable pub visit_remote_country : TextMatch → TextMatch × Status
  visit_remote_country node = (
    record node { eval_result = texts.contains flow.remote_country (texts.to_upper node.text) },
    fine,
  )

  -- Is the text in the interface's name or description, in lower case?
  abbrev mentions : String → String → Bool
  mentions field text = texts.contains (texts.to_lower field) (texts.to_lower text)

  interface_speed : InterfaceMatch → Option SidedRangeMatch → InterfaceMatch
  interface_speed node none = node
  interface_speed node (some speed) = record node {
    eval_result_src = speed.eval_result_src;
    eval_result_dst = speed.eval_result_dst;
  }

  -- The node's `Speed`, a child, has been visited before.
  unfoldable pub visit_interface : InterfaceMatch → InterfaceMatch × Status
  unfolding interface_speed
  visit_interface node = (
    elim node.snmp_id [
      | some id ↦ record node {
        eval_result_src = u32 id == flow.in_if;
        eval_result_dst = u32 id == flow.out_if;
      }
      | none ↦ elim node.name [
        | some text ↦ record node {
          eval_result_src = mentions flow.src_if_name text;
          eval_result_dst = mentions flow.dst_if_name text;
        }
        | none ↦ elim node.description [
          | some text ↦ record node {
            eval_result_src = mentions flow.src_if_desc text;
            eval_result_dst = mentions flow.dst_if_desc text;
          }
          | none ↦ interface_speed node node.speed
        ]
      ]
    ],
    fine,
  )
