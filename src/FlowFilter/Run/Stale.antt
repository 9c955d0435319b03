-- ===== src/FlowFilter/Run/Stale.antt =====
-- Where an earlier flow decides for a later one, and an error that is not reported.
use flowpipeline.Base.{ℕ, ◌≡◌, ◌<◌, refl, Bool, List, [], ◌∷◌, none, length, arith}
use flowpipeline.Flow.{Flow}
use flowpipeline.FlowFilter.Nodes.{
  Expression, single, regular, NumbersMatch, RegularMatch, RegularMatchGroup,
}
use flowpipeline.FlowFilter.Leaves.{Texts, passes_from, visit_passes_through}
use flowpipeline.FlowFilter.Groups.{
  visit_regular, regular_result, evaluate_regular_group, evaluate_statement, evaluate_expression,
  negate,
}
use flowpipeline.FlowFilter.Walk.{Walk, PostOrder, check_flow, visit_regular_group}

passes_from-short :
    (numbers path : List ℕ) (old : Bool)
    → length path < length numbers
    → passes_from numbers path old ≡ old
unfolding passes_from
passes_from-short numbers [] old h = refl
passes_from-short numbers (x ∷ path) old h = ground arith

module _ (texts : Texts) (w : Walk) (post : PostOrder texts w) where
  abbrev pub passes_through_filter : NumbersMatch → Expression
  passes_through_filter node =
      single
        (regular none
          (record { match = RegularMatch.passes_through node; eval_result = node.eval_result })
          node.eval_result)
        node.eval_result

  -- For a flow whose AS path is shorter than the list of the filter (as where the flow has none),
  -- a filter on passing through that list gives the result of the flow before.
  pub passes_through_stale :
      (node : NumbersMatch) (flow : Flow)
      → length flow.as_path < length node.numbers
      → (check_flow w (passes_through_filter node) flow).1 ≡ node.eval_result
  unfolding check_flow visit_regular_group visit_regular visit_passes_through evaluate_regular_group
      regular_result evaluate_statement evaluate_expression negate
  passes_through_stale node flow h =
      let g : RegularMatchGroup = record {
        match = RegularMatch.passes_through node;
        eval_result = node.eval_result;
      } in
      rw
        (
          post.on_single flow (regular none g node.eval_result) node.eval_result,
          post.on_regular flow none g node.eval_result,
        )
        (passes_from-short node.numbers flow.as_path node.eval_result h)
