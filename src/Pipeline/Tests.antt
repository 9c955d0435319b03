-- ===== src/Pipeline/Tests.antt =====
-- Pipelines at concrete inputs.
use mathlib.Core.List.{Perm, append-nil}
use mathlib.Core.List.Perm
use flowpipeline.Base.{
  true, false, List, [], ◌∷◌, ◌++◌, Option, none, some, String, str_eq, map, ◌≡◌, refl, sym, subst,
  if◌then◌else◌, Returns, ◌>>=◌, inr,
}
use flowpipeline.Flow.{Flow, empty_flow}
use flowpipeline.Segment
use flowpipeline.Segment.Filters.{out-append-drops-perm}
use flowpipeline.Modify.DropAll.{drop_step}
use flowpipeline.Pipeline.{
  BaseSegment, Segment, single, parallelized, pass, new, get_drop, subscribe_base, traffic,
}
use flowpipeline.Pipeline.Wiring.{IsPipelineOf, new-IsPipelineOf}
use flowpipeline.Pipeline.Drops.{Conserving, traffic-perm}
use flowpipeline.Pipeline.Registry.{lookup_segment, register_all, named, lookup-register_all}

-- The segment `drop`.
abbrev drop_all : BaseSegment
drop_all = record {
  input = none;
  output = none;
  subscribed = false;
  implements_filter = true;
  messages = λ subscribed ms. (Segment.run (drop_step subscribed) tt ms).1;
}

pass-Conserving : Conserving (subscribe_base pass)
unfolding subscribe_base
pass-Conserving ms = subst (λ l. Perm l ms) (sym (append-nil ms)) (Perm.refl ms)

drop_all-Conserving : Conserving (subscribe_base drop_all)
unfolding subscribe_base drop_step
drop_all-Conserving ms = out-append-drops-perm (drop_step true) (λ s msg. inr refl) tt ms

abbrev plain : List (Option Segment)
plain = some (single pass) ∷ some (single drop_all) ∷ []

abbrev jobs : List (Option Segment)
jobs = some (single pass) ∷ some (parallelized (pass ∷ pass ∷ [])) ∷ []

new-IsPipelineOf_example : IsPipelineOf jobs (new jobs)
new-IsPipelineOf_example = new-IsPipelineOf jobs

abbrev flows : List Flow
flows = empty_flow ∷ record empty_flow { bytes = 40 } ∷ []

traffic-perm_example :
    Returns
      (λ sent. Perm (sent.out ++ sent.drops) flows)
      (new (map (λ s. some (single s)) (pass ∷ drop_all ∷ [])) >>= λ p. traffic (get_drop p) flows)
traffic-perm_example =
    traffic-perm (pass ∷ drop_all ∷ []) flows (pass-Conserving, (drop_all-Conserving, tt))

abbrev lower : String → String
lower name = if str_eq name "Pass" then "pass" else name

abbrev templates : List (String × Segment)
templates = ("Pass", single pass) ∷ ("drop", single drop_all) ∷ []

abbrev table : List (String × Segment)
table = ("drop", single drop_all) ∷ ("pass", single pass) ∷ []

table_is_registered : register_all lower templates [] ≡ some table
unfolding register_all
table_is_registered = refl

lookup-register_all_example : lookup_segment lower "Pass" table ≡ named lower "Pass" templates
lookup-register_all_example = lookup-register_all lower templates "Pass" table table_is_registered
