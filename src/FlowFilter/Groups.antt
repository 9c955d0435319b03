-- ===== src/FlowFilter/Groups.antt =====
-- visitor.go: the cases of `Visit` for groups, statements and expressions, which read the results
-- of their children.
use flowpipeline.Base.{
  Bool, true, ◌&&◌, ◌||◌, not, Option, none, some, String, str_eq, if◌then◌else◌,
}
use flowpipeline.Flow.{Flow}
use flowpipeline.FlowFilter.Nodes.{
  SidedRangeMatch, InterfaceMatch, RegularMatch, DirectionalMatch, RegularMatchGroup,
  DirectionalMatchGroup, Expression, Statement, empty, single, joined, directional, regular, sub,
  Status, fine,
}
use flowpipeline.FlowFilter.Leaves.{
  Texts, visit_range, visit_sided_range, visit_address, visit_bps, visit_pps, visit_duration,
  visit_cid, visit_dscp, visit_ecn, visit_etype, visit_proto, visit_status, visit_tcp_flags,
  visit_flow_direction, visit_icmp, visit_if_speed, visit_next_hop, visit_router,
  visit_next_hop_asn, visit_normalized, visit_rpki, visit_passes_through, visit_remote_country,
  visit_interface,
}

abbrev pub through {ℓ κ} : {A : Type ℓ} {B : Type κ} → (A → B) → A × Status → B × Status
through f (a, status) = (f a, status)

module _ (texts : Texts) (flow : Flow) where
  -- The case of `Visit` for the set pointer of a regular group.
  unfoldable pub visit_regular : RegularMatch → RegularMatch × Status
  visit_regular (RegularMatch.router m) = through RegularMatch.router (visit_router flow m)
  visit_regular (RegularMatch.next_hop m) = through RegularMatch.next_hop (visit_next_hop flow m)
  visit_regular (RegularMatch.next_hop_asn m) =
      through RegularMatch.next_hop_asn (visit_next_hop_asn flow m)
  visit_regular (RegularMatch.bytes m) = through RegularMatch.bytes (visit_range flow.bytes m)
  visit_regular (RegularMatch.packets m) = through RegularMatch.packets (visit_range flow.packets m)
  visit_regular (RegularMatch.remote_country m) =
      through RegularMatch.remote_country (visit_remote_country texts flow m)
  visit_regular (RegularMatch.flow_direction m) =
      through RegularMatch.flow_direction (visit_flow_direction flow m)
  visit_regular (RegularMatch.normalized m) =
      through RegularMatch.normalized (visit_normalized flow m)
  visit_regular (RegularMatch.duration m) = through RegularMatch.duration (visit_duration flow m)
  visit_regular (RegularMatch.etype m) = through RegularMatch.etype (visit_etype flow m)
  visit_regular (RegularMatch.proto m) = through RegularMatch.proto (visit_proto flow m)
  visit_regular (RegularMatch.status m) = through RegularMatch.status (visit_status flow m)
  visit_regular (RegularMatch.tcp_flags m) = through RegularMatch.tcp_flags (visit_tcp_flags flow m)
  visit_regular (RegularMatch.ip_tos m) = through RegularMatch.ip_tos (visit_range flow.ip_tos m)
  visit_regular (RegularMatch.local_pref m) =
      through RegularMatch.local_pref (visit_range flow.local_pref m)
  visit_regular (RegularMatch.med m) = through RegularMatch.med (visit_range flow.med m)
  visit_regular (RegularMatch.dscp m) = through RegularMatch.dscp (visit_dscp flow m)
  visit_regular (RegularMatch.ecn m) = through RegularMatch.ecn (visit_ecn flow m)
  visit_regular (RegularMatch.sampling_rate m) =
      through RegularMatch.sampling_rate (visit_range flow.sampling_rate m)
  visit_regular (RegularMatch.icmp m) = through RegularMatch.icmp (visit_icmp flow m)
  visit_regular (RegularMatch.bps m) = through RegularMatch.bps (visit_bps flow m)
  visit_regular (RegularMatch.pps m) = through RegularMatch.pps (visit_pps flow m)
  visit_regular (RegularMatch.passes_through m) =
      through RegularMatch.passes_through (visit_passes_through flow m)
  visit_regular (RegularMatch.rpki m) = through RegularMatch.rpki (visit_rpki flow m)

  visit_speed : InterfaceMatch → Option SidedRangeMatch → InterfaceMatch × Status
  visit_speed node none = visit_interface texts flow node
  visit_speed node (some speed) =
      let (speed', status) = visit_if_speed flow speed in
      let node' = record node { speed = some speed' } in
      elim status [ fine ↦ visit_interface texts flow node' | other ↦ (node', other) ]

  -- The case of `Visit` for the set pointer of a directional group. An interface's `Speed` is its
  -- child, and an error there ends the visit.
  unfoldable pub visit_directional : DirectionalMatch → DirectionalMatch × Status
  unfolding visit_speed
  visit_directional (DirectionalMatch.address m) =
      through DirectionalMatch.address (visit_address flow m)
  visit_directional (DirectionalMatch.interface m) =
      through DirectionalMatch.interface (visit_speed m m.speed)
  visit_directional (DirectionalMatch.port m) =
      through DirectionalMatch.port (visit_sided_range flow.src_port flow.dst_port m)
  visit_directional (DirectionalMatch.asn m) =
      through DirectionalMatch.asn (visit_sided_range flow.src_as flow.dst_as m)
  visit_directional (DirectionalMatch.netsize m) =
      through DirectionalMatch.netsize (visit_sided_range flow.src_net flow.dst_net m)
  visit_directional (DirectionalMatch.cid m) = through DirectionalMatch.cid (visit_cid flow m)
  visit_directional (DirectionalMatch.vrf m) =
      through DirectionalMatch.vrf
        (visit_sided_range flow.ingress_vrf_id_bw flow.egress_vrf_id_bw m)

-- The result that a regular group copies.
unfoldable pub regular_result : RegularMatch → Bool
regular_result (RegularMatch.router m) = m.eval_result
regular_result (RegularMatch.next_hop m) = m.eval_result
regular_result (RegularMatch.next_hop_asn m) = m.eval_result
regular_result (RegularMatch.bytes m) = m.eval_result
regular_result (RegularMatch.packets m) = m.eval_result
regular_result (RegularMatch.remote_country m) = m.eval_result
regular_result (RegularMatch.flow_direction m) = m.eval_result
regular_result (RegularMatch.normalized m) = m.eval_result
regular_result (RegularMatch.duration m) = m.eval_result
regular_result (RegularMatch.etype m) = m.eval_result
regular_result (RegularMatch.proto m) = m.eval_result
regular_result (RegularMatch.status m) = m.eval_result
regular_result (RegularMatch.tcp_flags m) = m.eval_result
regular_result (RegularMatch.ip_tos m) = m.eval_result
regular_result (RegularMatch.local_pref m) = m.eval_result
regular_result (RegularMatch.med m) = m.eval_result
regular_result (RegularMatch.dscp m) = m.eval_result
regular_result (RegularMatch.ecn m) = m.eval_result
regular_result (RegularMatch.sampling_rate m) = m.eval_result
regular_result (RegularMatch.icmp m) = m.eval_result
regular_result (RegularMatch.bps m) = m.eval_result
regular_result (RegularMatch.pps m) = m.eval_result
regular_result (RegularMatch.passes_through m) = m.eval_result
regular_result (RegularMatch.rpki m) = m.eval_result

unfoldable pub src_result : DirectionalMatch → Bool
src_result (DirectionalMatch.address m) = m.eval_result_src
src_result (DirectionalMatch.interface m) = m.eval_result_src
src_result (DirectionalMatch.port m) = m.eval_result_src
src_result (DirectionalMatch.asn m) = m.eval_result_src
src_result (DirectionalMatch.netsize m) = m.eval_result_src
src_result (DirectionalMatch.cid m) = m.eval_result_src
src_result (DirectionalMatch.vrf m) = m.eval_result_src

unfoldable pub dst_result : DirectionalMatch → Bool
dst_result (DirectionalMatch.address m) = m.eval_result_dst
dst_result (DirectionalMatch.interface m) = m.eval_result_dst
dst_result (DirectionalMatch.port m) = m.eval_result_dst
dst_result (DirectionalMatch.asn m) = m.eval_result_dst
dst_result (DirectionalMatch.netsize m) = m.eval_result_dst
dst_result (DirectionalMatch.cid m) = m.eval_result_dst
dst_result (DirectionalMatch.vrf m) = m.eval_result_dst

unfoldable pub either_result : DirectionalMatch → Bool
unfolding src_result dst_result
either_result (DirectionalMatch.cid m) = m.eval_result || m.eval_result_src || m.eval_result_dst
either_result (DirectionalMatch.address m) = m.eval_result_src || m.eval_result_dst
either_result (DirectionalMatch.interface m) = m.eval_result_src || m.eval_result_dst
either_result (DirectionalMatch.port m) = m.eval_result_src || m.eval_result_dst
either_result (DirectionalMatch.asn m) = m.eval_result_src || m.eval_result_dst
either_result (DirectionalMatch.netsize m) = m.eval_result_src || m.eval_result_dst
either_result (DirectionalMatch.vrf m) = m.eval_result_src || m.eval_result_dst

unfoldable pub evaluate_regular_group : RegularMatchGroup → RegularMatchGroup
unfolding regular_result
evaluate_regular_group node = record node { eval_result = regular_result node.match }

direction_result : Option String → DirectionalMatch → Bool → Bool
direction_result none m old = either_result m
direction_result (some direction) m old =
    if str_eq direction "src"
    then src_result m
    else if str_eq direction "dst"
    then dst_result m
    else old

unfoldable pub evaluate_directional_group : DirectionalMatchGroup → DirectionalMatchGroup
unfolding direction_result either_result src_result dst_result
evaluate_directional_group node = record node {
  eval_result = direction_result node.direction node.match node.eval_result;
}

-- `EvalResult` of a statement and of an expression.
abbrev pub statement_result : Statement → Bool
statement_result (directional n g r) = r
statement_result (regular n g r) = r
statement_result (sub n e r) = r

abbrev pub expression_result : Expression → Bool
expression_result (empty r) = r
expression_result (single s r) = r
expression_result (joined s c e r) = r

-- `if node.Negated != nil && *node.Negated == true { … }`.
unfoldable pub negate : Option Bool → Bool → Bool
negate none r = r
negate (some negated) r = if negated then not r else r

unfoldable pub evaluate_statement : Statement → Statement
unfolding negate
evaluate_statement (directional n g r) = directional n g (negate n g.eval_result)
evaluate_statement (regular n g r) = regular n g (negate n g.eval_result)
evaluate_statement (sub n e r) = sub n e (negate n (expression_result e))

-- Empty filters return all flows. With another word the old result stays.
unfoldable pub evaluate_expression : Expression → Expression
evaluate_expression (empty r) = empty true
evaluate_expression (single s r) = single s (statement_result s)
evaluate_expression (joined s c e r) = joined s c e (
    if str_eq c "and"
    then statement_result s && expression_result e
    else if str_eq c "or"
    then statement_result s || expression_result e
    else r)
