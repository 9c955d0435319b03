-- ===== src/FlowFilter/Run/Refuses.antt =====
-- Which filters `New` refuses.
use flowpipeline.Base.{◌≡◌, ◌∙◌, ◌⊎◌, inl, inr, refl, ap, false, none, some, String}
use flowpipeline.Flow.{Flow, empty_flow}
use flowpipeline.FlowFilter.Nodes.{
  Expression, single, regular, RangeMatch, RegularMatch, RegularMatchGroup, Status, fine, bad_range,
  nil_pointer,
}
use flowpipeline.FlowFilter.Leaves.{Texts, visit_range, visit_bps}
use flowpipeline.FlowFilter.Groups.{visit_regular}
use flowpipeline.FlowFilter.Meaning.{range_status}
use flowpipeline.FlowFilter.Meaning.Leaves.{process_numeric_range_lem}
use flowpipeline.FlowFilter.Walk.{Walk, PostOrder, check_flow, visit_regular_group}
use flowpipeline.FlowFilter.Run.{segment, refused, checked, new}

Status-cases : (s : Status) → (s ≡ fine) ⊎ (s ≡ bad_range) ⊎ (s ≡ nil_pointer)
Status-cases Status.fine = inl refl
Status-cases Status.bad_range = inr (inl refl)
Status-cases Status.nil_pointer = inr (inr refl)

module _ (texts : Texts) (w : Walk) (post : PostOrder texts w) where
  -- The filter that is one match.
  abbrev pub filter_of : RegularMatch → Expression
  filter_of match =
      single (regular none (record { match = match; eval_result = false }) false) false

  -- How the check of such a filter ends is how the visit of the match ends.
  check_flow-filter_of :
      (m : RegularMatch) (flow : Flow)
      → (check_flow w (filter_of m) flow).2 ≡ (visit_regular texts flow m).1
  unfolding check_flow visit_regular_group
  check_flow-filter_of m flow =
      let g : RegularMatchGroup = record { match = m; eval_result = false } in
      rw (post.on_single flow (regular none g false) false, post.on_regular flow none g false)
        (elim (Status-cases (visit_regular texts flow m).1) [
          | inl e ↦ rw e refl
          | inr (inl e) ↦ rw e refl
          | inr (inr e) ↦ rw e refl
        ])

  -- A filter on a range of bytes whose lower bound is above its upper bound is refused; the same
  -- range of bits per second is not, since its error is lost.
  pub new_bad_range :
      (node : RangeMatch) (text : String)
      → range_status node.range ≡ bad_range
      → (new (λ s. some (filter_of (RegularMatch.bytes node))) w text ≡ refused)
        × ((e : Expression) × (new (λ s. some (filter_of (RegularMatch.bps node))) w text
              ≡ segment e))
  unfolding new checked visit_regular visit_range visit_bps check_flow
  new_bad_range node text h =
      let bytes : (check_flow w (filter_of (RegularMatch.bytes node)) empty_flow).2 ≡ bad_range =
        check_flow-filter_of (RegularMatch.bytes node) empty_flow
        ∙ ((process_numeric_range_lem node.range empty_flow.bytes).1 ∙ h) in
      let bps : (check_flow w (filter_of (RegularMatch.bps node)) empty_flow).2 ≡ fine =
        check_flow-filter_of (RegularMatch.bps node) empty_flow
        ∙ ap (λ s. elim s [ bad_range ↦ fine | other ↦ other ])
            ((process_numeric_range_lem node.range 0).1 ∙ h) in
      (
        rw bytes refl,
        ((check_flow w (filter_of (RegularMatch.bps node)) empty_flow).0, rw bps refl),
      )
