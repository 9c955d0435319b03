-- ===== src/Segment/Filters.antt =====
-- What every filter does with its input.
use mathlib.Core.Logic.{∥∥₁_map}
use mathlib.Core.List.{Perm, Sublist, Sublistᴰ, perm_middle}
use mathlib.Core.List.Perm
use flowpipeline.Base.{Bool, true, List, [], ◌∷◌, ◌++◌, ◌≡◌, ◌⊎◌, inl, inr, refl}
use flowpipeline.Flow.{Flow}
use flowpipeline.Segment.{Sent, run, forward, discard}

module _ {ℓ} {S : Type ℓ} (step : S → Flow → S × Sent) (subscribed : Bool) where
  -- Each flow is sent on as it is, or dropped as it is.
  abbrev pub Filters : Type ℓ
  Filters =
      (s : S) (msg : Flow)
      → ((step s msg).1 ≡ forward msg) ⊎ ((step s msg).1 ≡ discard subscribed msg)

  -- What a filter sends on are flows of its input, in their order.
  pub out-sublist : Filters → (s : S) (ms : List Flow) → Sublist (run step s ms).1.out ms
  unfolding run
  out-sublist h s [] = ∣ Sublistᴰ.slnil ∣₁
  out-sublist h s (m ∷ ms) = elim (h s m) [
    | inl e ↦ rw e (∥∥₁_map (out-sublist h (step s m).0 ms) (Sublistᴰ.cons-cons refl))
    | inr e ↦ rw e (∥∥₁_map (out-sublist h (step s m).0 ms) Sublistᴰ.cons)
  ]

module _ {ℓ} {S : Type ℓ} (step : S → Flow → S × Sent) where
  -- With its drops subscribed to, a filter sends each flow of its input exactly once, on one of
  -- the two channels.
  pub out-append-drops-perm :
      Filters step true
      → (s : S) (ms : List Flow) → let sent = (run step s ms).1 in Perm (sent.out ++ sent.drops) ms
  unfolding run
  out-append-drops-perm h s [] = Perm.refl []
  out-append-drops-perm h s (m ∷ ms) =
      let ih = out-append-drops-perm h (step s m).0 ms in
      let later = (run step (step s m).0 ms).1 in
      elim (h s m) [
        | inl e ↦ rw e (Perm.cons m ih)
        | inr e ↦ rw e (Perm.trans (perm_middle later.out later.drops) (Perm.cons m ih))
      ]
