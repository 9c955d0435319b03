-- ===== src/Modify/DropAll.antt =====
-- segments/filter/drop/drop.go and segments/pass/pass.go: the segments that drop and pass all.
use flowpipeline.Base.{Bool, true, List, [], ◌∷◌, ◌≡◌, refl, ap}
use flowpipeline.Flow.{Flow}
use flowpipeline.Segment
use flowpipeline.Segment.{Sent, discard, forward}

module _ (subscribed : Bool) where
  unfoldable pub drop_step : Unit {0} → Flow → Unit {0} × Sent
  drop_step s msg = (s, discard subscribed msg)

unfoldable pub pass_step : Unit {0} → Flow → Unit {0} × Sent
pass_step s msg = (s, forward msg)

-- Passing and dropping are complementary: over any flows, what `pass` sends on is what `drop`
-- sends to its drops, namely all of them, and `pass` drops nothing and `drop` sends nothing on.
pub pass_drop :
    (ms : List Flow)
    → let passed = (Segment.run pass_step tt ms).1 in
      let dropped = (Segment.run (drop_step true) tt ms).1 in
      (passed.out ≡ ms) × (dropped.drops ≡ ms) × (passed.drops ≡ []) × (dropped.out ≡ [])
unfolding Segment.run pass_step drop_step
pass_drop [] = (refl, refl, refl, refl)
pass_drop (m ∷ ms) =
    let (p, d, p', d') = pass_drop ms in (ap (λ l. m ∷ l) p, ap (λ l. m ∷ l) d, p', d')
