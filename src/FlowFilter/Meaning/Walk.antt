-- ===== src/FlowFilter/Meaning/Walk.antt =====
-- `CheckFlow` decides the meaning of the expression, whatever results earlier flows have left.
use flowpipeline.Base.{
  ◌∙◌, Bool, true, Option, none, some, ◌≡◌, ◌⊎◌, refl, ap, ap₂, false, str_eq_iff, arith,
}
use flowpipeline.Flow.{Flow}
use flowpipeline.FlowFilter.Nodes.{
  Expression, Statement, empty, single, joined, directional, regular, sub, fine,
}
use flowpipeline.FlowFilter.Leaves.{Texts}
use flowpipeline.FlowFilter.Groups.{
  evaluate_statement, evaluate_expression, expression_result, statement_result, negate,
}
use flowpipeline.FlowFilter.Walk.{Walk, PostOrder}
use flowpipeline.FlowFilter.Meaning.{
  says, holds, holds_statement, WellFormedRegular, WellFormedDirectional, WellFormedDirection,
  DecidesRegular, reset_regular, reset_directional,
}
use flowpipeline.FlowFilter.Meaning.Sides.{visit_regular_group_lem, visit_directional_group_lem}

unfoldable mutual
  pub reset : Expression → Expression
  reset (empty r) = empty false
  reset (single s r) = single (reset_statement s) false
  reset (joined s c e r) = joined (reset_statement s) c (reset e) false

  pub reset_statement : Statement → Statement
  reset_statement (directional n g r) =
      directional n (record g { match = reset_directional g.match; eval_result = false }) false
  reset_statement (regular n g r) =
      regular n (record g { match = reset_regular g.match; eval_result = false }) false
  reset_statement (sub n e r) = sub n (reset e) false

negate_lem : (n : Option Bool) (b : Bool) → negate n b ≡ says n b
unfolding negate
negate_lem none b = refl
negate_lem (some true) b = refl
negate_lem (some false) b = refl

-- Every node is well formed, and expressions are joined by `and` and `or`.
unfoldable mutual
  pub WellFormed : Expression → Type 0
  WellFormed (empty r) = Unit
  WellFormed (single s r) = WellFormedStatement s
  WellFormed (joined s c e r) = WellFormedStatement s × ((c ≡ "and") ⊎ (c ≡ "or")) × WellFormed e

  pub WellFormedStatement : Statement → Type 0
  WellFormedStatement (directional n g r) =
      WellFormedDirectional g.match × WellFormedDirection g.direction
  WellFormedStatement (regular n g r) = WellFormedRegular g.match
  WellFormedStatement (sub n e r) = WellFormed e

-- The flow decides every list of AS numbers in the expression.
unfoldable mutual
  pub Decides : Flow → Expression → Type 0
  Decides flow (empty r) = Unit
  Decides flow (single s r) = DecidesStatement flow s
  Decides flow (joined s c e r) = DecidesStatement flow s × Decides flow e

  pub DecidesStatement : Flow → Statement → Type 0
  DecidesStatement flow (directional n g r) = Unit
  DecidesStatement flow (regular n g r) = DecidesRegular flow g.match
  DecidesStatement flow (sub n e r) = Decides flow e

module _ (texts : Texts) (w : Walk) (post : PostOrder texts w) (flow : Flow) where
  mutual
    unfolding reset reset_statement WellFormed WellFormedStatement Decides DecidesStatement holds
        holds_statement evaluate_expression evaluate_statement

    walk_expression_lem :
        (e : Expression)
        → WellFormed (reset e)
        → Decides flow (reset e)
        → ((w.walk_expression flow e).1 ≡ fine)
          × (expression_result (w.walk_expression flow e).0 ≡ holds texts flow (reset e))
          × (reset (w.walk_expression flow e).0 ≡ reset e)
    walk_expression_lem (empty r) wf d = rw (post.on_empty flow r) (refl, refl, refl)
    walk_expression_lem (single s r) wf d =
        let (ended, result, same) = walk_statement_lem s wf d in
        rw (post.on_single flow s r, ended) (refl, result, ap (λ x. single x false) same)
    walk_expression_lem (joined s c e r) wf d =
        let (ended, result, same) = walk_statement_lem s wf.0 d.0 in
        let (ended', result', same') = walk_expression_lem e wf.2 d.1 in
        rw (post.on_joined flow s c e r, ended, ended')
          (
            refl,
            ground (arith, str_eq_iff c "and", str_eq_iff c "or"),
            ap₂ (λ x y. joined x c y false) same same',
          )

    walk_statement_lem :
        (s : Statement)
        → WellFormedStatement (reset_statement s)
        → DecidesStatement flow (reset_statement s)
        → ((w.walk_statement flow s).1 ≡ fine)
          × (statement_result (w.walk_statement flow s).0
              ≡ holds_statement texts flow (reset_statement s))
          × (reset_statement (w.walk_statement flow s).0 ≡ reset_statement s)
    walk_statement_lem (directional n g r) wf d =
        let (ended, result, same, dir) = visit_directional_group_lem texts flow g wf.0 wf.1 in
        rw (post.on_directional flow n g r, ended)
          (
            refl,
            negate_lem n _ ∙ ap (says n) result,
            λ i.
                directional n (record { direction = dir i; match = same i; eval_result = false })
                  false,
          )
    walk_statement_lem (regular n g r) wf d =
        let (ended, result, same) = visit_regular_group_lem texts flow g wf d in
        rw (post.on_regular flow n g r, ended)
          (
            refl,
            negate_lem n _ ∙ ap (says n) result,
            λ i. regular n (record { match = same i; eval_result = false }) false,
          )
    walk_statement_lem (sub n e r) wf d =
        let (ended, result, same) = walk_expression_lem e wf d in
        rw (post.on_sub flow n e r, ended)
          (refl, negate_lem n _ ∙ ap (says n) result, ap (λ x. sub n x false) same)
