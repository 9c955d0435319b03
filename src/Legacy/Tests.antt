-- ===== src/Legacy/Tests.antt =====
-- The conversions at concrete inputs.
use flowpipeline.Base.{ℕ, ◌≡◌, ◌/◌, ◌*◌}
use flowpipeline.Flow.{empty_flow}
use flowpipeline.Flow.Timestamps.{Factor, nano, micro, milli, kilo, mega, giga}
use flowpipeline.Legacy.{LegacyFlow, convert_to_enriched_flow, convert_to_legacy_enriched_flow}
use flowpipeline.Legacy.RoundTrip.{enriched-legacy}

-- The factors on whole numbers.
abbrev scale : Factor → ℕ → ℕ
scale nano t = t / 1000000000
scale micro t = t / 1000000
scale milli t = t / 1000
scale kilo t = t * 1000
scale mega t = t * 1000000
scale giga t = t * 1000000000

abbrev legacy : LegacyFlow
legacy = record (convert_to_legacy_enriched_flow scale empty_flow).0 {
  time_flow_start = 1700000000;
  bytes = 1500;
  src_port = 443;
}

enriched-legacy_example :
    (convert_to_legacy_enriched_flow scale (convert_to_enriched_flow scale legacy)).0 ≡ legacy
enriched-legacy_example = enriched-legacy scale legacy
