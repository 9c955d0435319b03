-- ===== src/Segment/Chooses.antt =====
-- A loop that sends at most one flow for each that it receives, and has no state.
use flowpipeline.Base.{List, [], ◌∷◌, ◌++◌, Option, none, some, ◌≡◌, refl, ap, ap₂, ◌∙◌}
use flowpipeline.Flow.{Flow}
use flowpipeline.Segment.{Sent, run}

-- What is sent for one flow.
abbrev pub at_most_one : Option Flow → List Flow
at_most_one none = []
at_most_one (some m) = m ∷ []

abbrev pub chosen : (Flow → Option Flow) → List Flow → List Flow
chosen choose [] = []
chosen choose (m ∷ ms) = at_most_one (choose m) ++ chosen choose ms

module _ {ℓ} {S : Type ℓ} (step : S → Flow → S × Sent) (s : S) (choose : Flow → Option Flow) where
  pub run-chosen :
      ((m : Flow) → ((step s m).0 ≡ s) × ((step s m).1.out ≡ at_most_one (choose m)))
      → (ms : List Flow) → (run step s ms).1.out ≡ chosen choose ms
  unfolding run
  run-chosen h [] = refl
  run-chosen h (m ∷ ms) =
      let (same, sent) = h m in
      ap₂ ◌++◌ sent (ap (λ t. (run step t ms).1.out) same ∙ run-chosen h ms)
