-- ===== src/Legacy/RoundTrip.antt =====
-- What the two conversions preserve.
use flowpipeline.Base.{ℕ, ◌≡◌, arith}
use flowpipeline.Flow.Timestamps.{
  Factor, sync_missing_time_stamps, fill_time_if_empty_with_fallback,
}
use flowpipeline.Legacy.{LegacyFlow, convert_to_enriched_flow, convert_to_legacy_enriched_flow}

module _ (scale : Factor → ℕ → ℕ) where
  fill-fill : (t : ℕ) (k l : Factor) → fill_time_if_empty_with_fallback scale t 0 k 0 l ≡ t
  unfolding fill_time_if_empty_with_fallback
  fill-fill t k l = ground arith

  -- A legacy flow that is converted to the current format and back is the same legacy flow, in
  -- every field, whatever the float arithmetic of the times is.
  pub enriched-legacy :
      (l : LegacyFlow)
      → (convert_to_legacy_enriched_flow scale (convert_to_enriched_flow scale l)).0 ≡ l
  unfolding convert_to_legacy_enriched_flow convert_to_enriched_flow sync_missing_time_stamps
  enriched-legacy l = ground arith
