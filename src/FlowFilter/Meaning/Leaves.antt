-- ===== src/FlowFilter/Meaning/Leaves.antt =====
-- The visitor's results for the set pointer of a group are what the node means.
use flowpipeline.Base.{
  ℕ, ◌≡◌, ◌≢◌, refl, Bool, true, false, List, [], ◌∷◌, str_eq_iff, arith, length, ◌≤◌, mul64, ◌/◌,
}
use flowpipeline.Flow.{Flow}
use flowpipeline.FlowFilter.Nodes.{NumericRange, RegularMatch, fine}
use flowpipeline.FlowFilter.Leaves.{
  Texts, process_numeric_range, slice_eq, passes_from, visit_range, visit_bps, visit_pps,
  visit_duration, visit_dscp, visit_ecn, visit_etype, visit_proto, visit_status, visit_tcp_flags,
  visit_flow_direction, visit_icmp, visit_next_hop, visit_router, visit_next_hop_asn,
  visit_normalized, visit_rpki, visit_passes_through, visit_remote_country, uint64_duration, or_one,
}
use flowpipeline.FlowFilter.Groups.{visit_regular, regular_result}
use flowpipeline.FlowFilter.Meaning.{
  in_range, range_status, begins, infix_of, holds_regular, WellFormedRegular, DecidesRegular,
  reset_regular,
}

pub process_numeric_range_lem :
    (r : NumericRange) (n : ℕ)
    → ((process_numeric_range r n).0 ≡ in_range r n)
      × ((process_numeric_range r n).1 ≡ range_status r)
unfolding process_numeric_range in_range
process_numeric_range_lem r n = ground arith

slice_eq-begins : (vs path : List ℕ) → slice_eq vs path ≡ begins vs path
unfolding slice_eq begins
slice_eq-begins [] path = refl
slice_eq-begins (v ∷ vs) [] = refl
slice_eq-begins (v ∷ vs) (b ∷ bs) = ground (arith, slice_eq-begins vs bs)

begins-length : (vs path : List ℕ) → begins vs path ≡ true → length vs ≤ length path
unfolding begins
begins-length [] path h = omega arith
begins-length (v ∷ vs) [] h = cc
begins-length (v ∷ vs) (b ∷ bs) h = ground (arith, begins-length vs bs)

infix_of-length : (vs path : List ℕ) → infix_of vs path ≡ true → length vs ≤ length path
unfolding infix_of
infix_of-length vs [] h = cc
infix_of-length vs (b ∷ bs) h = ground (arith, begins-length vs (b ∷ bs), infix_of-length vs bs)

passes_from-false : (vs path : List ℕ) → passes_from vs path false ≡ infix_of vs path
unfolding passes_from infix_of
passes_from-false vs [] = refl
passes_from-false vs (b ∷ bs) = ground (
  arith,
  passes_from-false vs bs,
  infix_of-length vs (b ∷ bs),
  slice_eq-begins vs (b ∷ bs),
  begins-length vs (b ∷ bs),
  infix_of-length vs bs,
)

-- On a path with room for the numbers the loop decides, whatever the result was before.
pub passes_from_lem :
    (vs path : List ℕ) (old : Bool)
    → path ≢ []
    → length vs ≤ length path
    → passes_from vs path old ≡ infix_of vs path
unfolding passes_from infix_of
passes_from_lem vs [] old h l = absurd (h refl)
passes_from_lem vs (b ∷ bs) old h l =
    ground (arith, slice_eq-begins vs (b ∷ bs), passes_from-false vs bs)

module _ (texts : Texts) (flow : Flow) where
  -- The result, the status and the unchanged syntax of a regular leaf.
  pub visit_regular_lem :
      (m : RegularMatch)
      → WellFormedRegular (reset_regular m)
      → DecidesRegular flow (reset_regular m)
      → let (m', status) = visit_regular texts flow m in
        (status ≡ fine)
        × (regular_result m' ≡ holds_regular texts flow (reset_regular m))
        × (reset_regular m' ≡ reset_regular m)
  unfolding visit_regular regular_result reset_regular visit_range visit_bps visit_pps
      visit_duration visit_dscp visit_ecn visit_etype visit_proto visit_status visit_tcp_flags
      visit_flow_direction visit_icmp visit_next_hop visit_router visit_next_hop_asn
      visit_normalized visit_rpki visit_passes_through visit_remote_country
  visit_regular_lem (RegularMatch.router m) w d = (refl, refl, refl)
  visit_regular_lem (RegularMatch.next_hop m) w d = (refl, refl, refl)
  visit_regular_lem (RegularMatch.next_hop_asn m) w d = (refl, refl, refl)
  visit_regular_lem (RegularMatch.bytes m) w d =
      ground (arith, process_numeric_range_lem m.range flow.bytes)
  visit_regular_lem (RegularMatch.packets m) w d =
      ground (arith, process_numeric_range_lem m.range flow.packets)
  visit_regular_lem (RegularMatch.remote_country m) w d = (refl, refl, refl)
  visit_regular_lem (RegularMatch.flow_direction m) w d =
      ground (arith, str_eq_iff m.text "incoming", str_eq_iff m.text "outgoing")
  visit_regular_lem (RegularMatch.normalized m) w d = (refl, refl, refl)
  visit_regular_lem (RegularMatch.duration m) w d =
      ground (arith, process_numeric_range_lem m.range (uint64_duration flow))
  visit_regular_lem (RegularMatch.etype m) w d = ground arith
  visit_regular_lem (RegularMatch.proto m) w d = ground arith
  visit_regular_lem (RegularMatch.status m) w d = ground arith
  visit_regular_lem (RegularMatch.tcp_flags m) w d = ground arith
  visit_regular_lem (RegularMatch.ip_tos m) w d =
      ground (arith, process_numeric_range_lem m.range flow.ip_tos)
  visit_regular_lem (RegularMatch.local_pref m) w d =
      ground (arith, process_numeric_range_lem m.range flow.local_pref)
  visit_regular_lem (RegularMatch.med m) w d =
      ground (arith, process_numeric_range_lem m.range flow.med)
  visit_regular_lem (RegularMatch.dscp m) w d = ground arith
  visit_regular_lem (RegularMatch.ecn m) w d = ground arith
  visit_regular_lem (RegularMatch.sampling_rate m) w d =
      ground (arith, process_numeric_range_lem m.range flow.sampling_rate)
  visit_regular_lem (RegularMatch.icmp m) w d = ground arith
  visit_regular_lem (RegularMatch.bps m) w d = ground (
    arith,
    process_numeric_range_lem m.range (mul64 flow.bytes 8 / or_one (uint64_duration flow)),
  )
  visit_regular_lem (RegularMatch.pps m) w d =
      ground
        (arith, process_numeric_range_lem m.range (flow.packets / or_one (uint64_duration flow)))
  visit_regular_lem (RegularMatch.passes_through m) w d =
      ground (arith, passes_from_lem m.numbers flow.as_path m.eval_result)
  visit_regular_lem (RegularMatch.rpki m) w d = ground arith
