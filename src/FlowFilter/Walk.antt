-- ===== src/FlowFilter/Walk.antt =====
-- `Filter.CheckFlow`: the parser's `Visit` walks the nodes and calls the visitor on each. The walk
-- is a parameter; `PostOrder` states what the visitor relies on: `next` visits the children of a
-- node in turn, and after an error nothing more is visited.
use flowpipeline.Base.{Bool, Option, String, ◌≡◌}
use flowpipeline.Flow.{Flow}
use flowpipeline.FlowFilter.Nodes.{
  RegularMatchGroup, DirectionalMatchGroup, Expression, Statement, empty, single, joined,
  directional, regular, sub, Status, fine,
}
use flowpipeline.FlowFilter.Leaves.{Texts}
use flowpipeline.FlowFilter.Groups.{
  visit_regular, visit_directional, evaluate_regular_group, evaluate_directional_group,
  evaluate_statement, evaluate_expression, expression_result,
}

-- The end of `Visit` on a node whose children have been visited with the given status: only after
-- `fine` is the node itself evaluated.
abbrev pub finish {ℓ} : {A : Type ℓ} → (A → A) → A × Status → A × Status
finish evaluate (node, Status.fine) = (evaluate node, fine)
finish evaluate (node, Status.bad_range) = (node, Status.bad_range)
finish evaluate (node, Status.nil_pointer) = (node, Status.nil_pointer)

-- The second child of a node is visited if the visit of the first has ended well.
abbrev pub visit_second {ℓ} : {A : Type ℓ} → Status → (A → A × Status) → A → A × Status
visit_second Status.fine visit a = visit a
visit_second Status.bad_range visit a = (a, Status.bad_range)
visit_second Status.nil_pointer visit a = (a, Status.nil_pointer)

module _ (texts : Texts) (flow : Flow) where
  unfoldable pub visit_regular_group : RegularMatchGroup → RegularMatchGroup × Status
  visit_regular_group g =
      let (m, status) = visit_regular texts flow g.match in
      finish evaluate_regular_group (record g { match = m }, status)

  unfoldable pub visit_directional_group : DirectionalMatchGroup → DirectionalMatchGroup × Status
  visit_directional_group g =
      let (m, status) = visit_directional texts flow g.match in
      finish evaluate_directional_group (record g { match = m }, status)

-- A walk: what `parser.Visit(expr, f.Visit)` does for the flow that the filter holds.
pub record Walk : Type 0 where
  pub walk_expression : Flow → Expression → Expression × Status
  pub walk_statement : Flow → Statement → Statement × Status

pub record PostOrder (texts : Texts) (w : Walk) : Type 0 where
  pub on_empty :
      (f : Flow) (r : Bool)
      → w.walk_expression f (empty r) ≡ finish evaluate_expression (empty r, fine)
  pub on_single :
      (f : Flow) (s : Statement) (r : Bool)
      → w.walk_expression f (single s r) ≡ (
          let (s', status) = w.walk_statement f s in
          finish evaluate_expression (single s' r, status))
  pub on_joined :
      (f : Flow) (s : Statement) (c : String) (e : Expression) (r : Bool)
      → w.walk_expression f (joined s c e r) ≡ (
          let (s', status) = w.walk_statement f s in
          let (e', status') = visit_second status (w.walk_expression f) e in
          finish evaluate_expression (joined s' c e' r, status'))
  pub on_directional :
      (f : Flow) (n : Option Bool) (g : DirectionalMatchGroup) (r : Bool)
      → w.walk_statement f (directional n g r) ≡ (
          let (g', status) = visit_directional_group texts f g in
          finish evaluate_statement (directional n g' r, status))
  pub on_regular :
      (f : Flow) (n : Option Bool) (g : RegularMatchGroup) (r : Bool)
      → w.walk_statement f (regular n g r) ≡ (
          let (g', status) = visit_regular_group texts f g in
          finish evaluate_statement (regular n g' r, status))
  pub on_sub :
      (f : Flow) (n : Option Bool) (e : Expression) (r : Bool)
      → w.walk_statement f (sub n e r) ≡ (
          let (e', status) = w.walk_expression f e in
          finish evaluate_statement (sub n e' r, status))

-- `CheckFlow`: the expression after the visit, its result, and how the visit ended.
unfoldable pub check_flow : Walk → Expression → Flow → Expression × Bool × Status
check_flow w expr flow =
    let (expr', status) = w.walk_expression flow expr in (expr', expression_result expr', status)
