-- ===== src/FlowFilter/Tests.antt =====
-- A walk in post-order, and the filter at concrete inputs.
use flowpipeline.Base.{◌≡◌, refl, ap, true, false, [], ◌∷◌, none, some, str_eq, arith}
use flowpipeline.Flow.{Flow, empty_flow}
use flowpipeline.FlowFilter.Nodes.{
  RangeMatch, NumericRange, NumericRange, NumbersMatch, RegularMatch, DirectionalMatch, Expression,
  Statement, empty, single, joined, directional, regular, sub, Status, fine,
}
use flowpipeline.FlowFilter.Leaves.{Texts}
use flowpipeline.FlowFilter.Groups.{evaluate_statement, evaluate_expression}
use flowpipeline.FlowFilter.Walk.{
  Walk, PostOrder, finish, visit_second, visit_regular_group, visit_directional_group, check_flow,
}
use flowpipeline.FlowFilter.Meaning.{holds, in_range, begins, infix_of}
use flowpipeline.FlowFilter.Run.{new, refused, segment}
use flowpipeline.FlowFilter.Run.Refuses.{filter_of, new_bad_range}
use flowpipeline.FlowFilter.Run.Selects.{select}
use flowpipeline.FlowFilter.Run.Stale.{passes_through_filter, passes_through_stale}

-- Texts of which only equal ones contain each other.
abbrev texts : Texts
texts = record { contains = str_eq; to_lower = λ s. s; to_upper = λ s. s }

unfoldable mutual
  walk_expression : Flow → Expression → Expression × Status
  walk_expression f (empty r) = finish evaluate_expression (empty r, fine)
  walk_expression f (single s r) =
      let (s', status) = walk_statement f s in finish evaluate_expression (single s' r, status)
  walk_expression f (joined s c e r) =
      let (s', status) = walk_statement f s in
      let second = walk_expression f e in
      let (e', status') = visit_second status (λ x. second) e in
      finish evaluate_expression (joined s' c e' r, status')

  walk_statement : Flow → Statement → Statement × Status
  walk_statement f (directional n g r) =
      let (g', status) = visit_directional_group texts f g in
      finish evaluate_statement (directional n g' r, status)
  walk_statement f (regular n g r) =
      let (g', status) = visit_regular_group texts f g in
      finish evaluate_statement (regular n g' r, status)
  walk_statement f (sub n e r) =
      let (e', status) = walk_expression f e in finish evaluate_statement (sub n e' r, status)

abbrev walk : Walk
walk = record { walk_expression = walk_expression; walk_statement = walk_statement }

visit_second_lem :
    (status : Status) (visit : Expression → Expression × Status) (e : Expression)
    → visit_second status (λ x. visit e) e ≡ visit_second status visit e
visit_second_lem Status.fine visit e = refl
visit_second_lem Status.bad_range visit e = refl
visit_second_lem Status.nil_pointer visit e = refl

walk-PostOrder : PostOrder texts walk
unfolding walk_expression walk_statement
walk-PostOrder = record {
  on_empty = λ f r. refl;
  on_single = λ f s r. refl;
  on_joined = λ f s c e r.
      ap (λ (e', status). finish evaluate_expression (joined (walk_statement f s).0 c e' r, status))
        (visit_second_lem (walk_statement f s).1 (walk_expression f) e);
  on_directional = λ f n g r. refl;
  on_regular = λ f n g r. refl;
  on_sub = λ f n e r. refl;
}

abbrev from_100_to_200 : NumericRange
from_100_to_200 = record { lower = some 100; upper = some 200; unary = none; number = none }

abbrev is_443 : NumericRange
is_443 = record { lower = none; upper = none; unary = none; number = some 443 }

abbrev through_7_8 : NumbersMatch
through_7_8 = record { numbers = 7 ∷ 8 ∷ []; eval_result = false }

abbrev bytes_statement : Statement
bytes_statement =
    regular none
      (record {
        match = RegularMatch.bytes (record { range = from_100_to_200; eval_result = false });
        eval_result = false;
      })
      false

abbrev port_statement : Statement
port_statement =
    directional (some true)
      (record {
        direction = some "dst";
        match =
            DirectionalMatch.port
              (record { range = is_443; eval_result_src = false; eval_result_dst = false });
        eval_result = false;
      })
      false

abbrev path_statement : Statement
path_statement =
    regular none (record { match = RegularMatch.passes_through through_7_8; eval_result = false })
      false

-- `bytes 100-200 and (not dst port 443 or passes-through 7 8)`.
abbrev filter : Expression
filter =
    joined bytes_statement "and"
      (single (sub none (joined port_statement "or" (single path_statement false) false) false)
        false)
      false

abbrev web : Flow
web = record empty_flow { bytes = 150; dst_port = 443; as_path = 1 ∷ 2 ∷ [] }

abbrev transit : Flow
transit = record empty_flow { bytes = 150; dst_port = 443; as_path = 1 ∷ 7 ∷ 8 ∷ [] }

abbrev large : Flow
large = record empty_flow { bytes = 201; dst_port = 80; as_path = 3 ∷ 4 ∷ [] }

only_transit : select (λ m. holds texts m filter) (web ∷ transit ∷ large ∷ []) ≡ transit ∷ []
unfolding holds in_range infix_of begins
only_transit = refl

-- The result of the flow before, true, is kept for a flow with no path.
passes_through_stale_example :
    (check_flow walk
      (passes_through_filter texts walk walk-PostOrder (record through_7_8 { eval_result = true }))
      empty_flow).1
    ≡ true
passes_through_stale_example =
    passes_through_stale texts walk walk-PostOrder (record through_7_8 { eval_result = true })
      empty_flow (omega arith)

abbrev from_200_to_100 : RangeMatch
from_200_to_100 = record {
  range = record { lower = some 200; upper = some 100; unary = none; number = none };
  eval_result = false;
}

new_bad_range_example :
    (new
        (λ s. some (filter_of texts walk walk-PostOrder (RegularMatch.bytes from_200_to_100)))
        walk
        "bytes 200-100"
      ≡ refused)
    × ((e : Expression) × (new
            (λ s. some (filter_of texts walk walk-PostOrder (RegularMatch.bps from_200_to_100)))
            walk
            "bytes 200-100"
          ≡ segment e))
new_bad_range_example = new_bad_range texts walk walk-PostOrder from_200_to_100 "bytes 200-100" refl
