-- ===== src/FlowFilter/Meaning/Sides.antt =====
-- The visitor's results for a directional group are what the node means on each side.
use flowpipeline.Base.{
  ◌≡◌, inl, inr, Option-cases, refl, Bool, Option, none, some, String, str_eq_iff, arith, ◌/◌,
}
use flowpipeline.Flow.{Flow}
use flowpipeline.FlowFilter.Nodes.{DirectionalMatch, DirectionalMatchGroup, RegularMatchGroup, fine}
use flowpipeline.FlowFilter.Leaves.{
  Texts, visit_sided_range, visit_address, visit_cid, visit_if_speed, visit_interface,
}
use flowpipeline.FlowFilter.Groups.{
  visit_directional, src_result, dst_result, either_result, evaluate_directional_group,
  evaluate_regular_group,
}
use flowpipeline.FlowFilter.Walk.{visit_regular_group, visit_directional_group}
use flowpipeline.FlowFilter.Meaning.{
  holds_src, holds_dst, holds_directed, holds_regular, WellFormedRegular, WellFormedDirectional,
  WellFormedDirection, DecidesRegular, reset_regular, reset_directional,
}
use flowpipeline.FlowFilter.Meaning.Leaves.{process_numeric_range_lem, visit_regular_lem}

module _ (texts : Texts) (flow : Flow) where
  abbrev Sided : DirectionalMatch → Type 0
  Sided m =
      let (m', status) = visit_directional texts flow m in
      (status ≡ fine)
      × (src_result m' ≡ holds_src texts flow (reset_directional m))
      × (dst_result m' ≡ holds_dst texts flow (reset_directional m))
      × (either_result m' ≡ holds_directed texts flow none (reset_directional m))
      × (reset_directional m' ≡ reset_directional m)

  pub visit_directional_lem :
      (m : DirectionalMatch) → WellFormedDirectional (reset_directional m) → Sided m
  unfolding visit_directional src_result dst_result either_result reset_directional
      visit_sided_range visit_address visit_cid visit_if_speed visit_interface
  visit_directional_lem (DirectionalMatch.address m) w = ground arith
  visit_directional_lem (DirectionalMatch.interface m) w = elim (Option-cases m.speed) [
    | inl e ↦ ground arith
    | inr (s, e) ↦ ground (
      arith,
      process_numeric_range_lem s.range (flow.src_if_speed / 1000),
      process_numeric_range_lem s.range (flow.dst_if_speed / 1000),
    )
  ]
  visit_directional_lem (DirectionalMatch.port m) w = ground (
    arith,
    process_numeric_range_lem m.range flow.src_port,
    process_numeric_range_lem m.range flow.dst_port,
  )
  visit_directional_lem (DirectionalMatch.asn m) w = ground (
    arith,
    process_numeric_range_lem m.range flow.src_as,
    process_numeric_range_lem m.range flow.dst_as,
  )
  visit_directional_lem (DirectionalMatch.netsize m) w = ground (
    arith,
    process_numeric_range_lem m.range flow.src_net,
    process_numeric_range_lem m.range flow.dst_net,
  )
  visit_directional_lem (DirectionalMatch.cid m) w = ground (
    arith,
    process_numeric_range_lem m.range flow.cid,
    process_numeric_range_lem m.range flow.src_cid,
    process_numeric_range_lem m.range flow.dst_cid,
  )
  visit_directional_lem (DirectionalMatch.vrf m) w = ground (
    arith,
    process_numeric_range_lem m.range flow.ingress_vrf_id_bw,
    process_numeric_range_lem m.range flow.egress_vrf_id_bw,
  )

  -- A group of either kind ends well, with the result that its node means.
  pub visit_regular_group_lem :
      (g : RegularMatchGroup)
      → WellFormedRegular (reset_regular g.match)
      → DecidesRegular flow (reset_regular g.match)
      → let (g', status) = visit_regular_group texts flow g in
        (status ≡ fine)
        × (g'.eval_result ≡ holds_regular texts flow (reset_regular g.match))
        × (reset_regular g'.match ≡ reset_regular g.match)
  unfolding visit_regular_group evaluate_regular_group
  visit_regular_group_lem g w d =
      let (ended, result, same) = visit_regular_lem texts flow g.match w d in
      rw ended (refl, result, same)

  directed :
      (d : Option String) (m m0 : DirectionalMatch) (old : Bool)
      → WellFormedDirection d
      → src_result m ≡ holds_src texts flow m0
      → dst_result m ≡ holds_dst texts flow m0
      → either_result m ≡ holds_directed texts flow none m0
      → (evaluate_directional_group
          (record { direction = d; match = m; eval_result = old })).eval_result
        ≡ holds_directed texts flow d m0
  unfolding evaluate_directional_group
  directed none m m0 old w src dst either = either
  directed (some d) m m0 old w src dst either =
      ground (arith, str_eq_iff d "src", str_eq_iff d "dst")

  pub visit_directional_group_lem :
      (g : DirectionalMatchGroup)
      → WellFormedDirectional (reset_directional g.match)
      → WellFormedDirection g.direction
      → let (g', status) = visit_directional_group texts flow g in
        (status ≡ fine)
        × (g'.eval_result ≡ holds_directed texts flow g.direction (reset_directional g.match))
        × (reset_directional g'.match ≡ reset_directional g.match)
        × (g'.direction ≡ g.direction)
  unfolding visit_directional_group evaluate_directional_group
  visit_directional_group_lem g w d =
      let (ended, src, dst, either, same) = visit_directional_lem g.match w in
      rw ended (
        refl,
        directed g.direction (visit_directional texts flow g.match).0 (reset_directional g.match)
            g.eval_result d src dst either,
        same,
        refl,
      )
