-- ===== src/Toptalkers/Params/Valid.antt =====
-- What the options ensure.
use flowpipeline.Base.{ℤ, ℕ, ◌<◌, ◌≤◌, ◌≡◌, ◌⊎◌, Option, some, String, str_eq_iff, arith}
use flowpipeline.Toptalkers.Database.{MetricsParams, Database}
use flowpipeline.Toptalkers.Database.Valid.{IsWellFormed}
use flowpipeline.Toptalkers.Database.Reaches.{Reaches, Reaches-IsWellFormed}
use flowpipeline.Toptalkers.Params.{
  max_int, PrometheusParams, init_default_prometheus_metric_params, parse_buckets,
  parse_relevant_address, parse_prometheus_config, new,
}

-- The parameters that the segment can work with.
abbrev pub IsUsable : MetricsParams → Type 0
IsUsable p =
    ((0 < p.buckets) × (p.buckets ≤ max_int))
    × ((0 < p.threshold_buckets) × (p.threshold_buckets ≤ max_int))
    × ((0 < p.report_buckets) × (p.report_buckets ≤ max_int))
    × (0 < p.bucket_duration)
    × (0 < p.cleanup_window_sizes)
    × ((p.relevant_address ≡ "source")
        ⊎ (p.relevant_address ≡ "destination")
        ⊎ (p.relevant_address ≡ "both")
        ⊎ (p.relevant_address ≡ "connection"))

module _ (parse_int : String → Option ℤ) (parse_uint : String → Option ℕ) where
  parse_buckets_lem :
      (value : String) (old n : ℕ)
      → (0 < old) × (old ≤ max_int)
      → parse_buckets parse_int parse_uint value old ≡ some n
      → (0 < n) × (n ≤ max_int)
  unfolding parse_buckets
  parse_buckets_lem value old n h e = ground arith

  parse_relevant_address_lem :
      (value : String)
      → let a = parse_relevant_address parse_int parse_uint value "destination" in
        (a ≡ "source") ⊎ (a ≡ "destination") ⊎ (a ≡ "both") ⊎ (a ≡ "connection")
  unfolding parse_relevant_address
  parse_relevant_address_lem value = ground (
    arith,
    str_eq_iff value "source",
    str_eq_iff value "destination",
    str_eq_iff value "both",
    str_eq_iff value "connection",
  )

  -- Whatever the options say and however they parse, `New` either returns nil or parameters that
  -- are usable: positive numbers of buckets within the range of an int, a positive duration, and
  -- one of the four documented addresses; and every database that is reached with them is well
  -- formed.
  pub new-IsUsable :
      (config : String → String) (params : MetricsParams) (prometheus : PrometheusParams)
      → new parse_int parse_uint config ≡ some (params, prometheus)
      → IsUsable params
        × ((average : ℕ → ℕ → ℕ) (db : Database) → Reaches average params db → IsWellFormed db)
  unfolding new parse_prometheus_config init_default_prometheus_metric_params
  new-IsUsable config params prometheus e =
      let usable : IsUsable params = ground (
        arith,
        parse_buckets_lem (config "buckets") 60 params.buckets (omega arith, omega arith),
        parse_buckets_lem (config "thresholdbuckets") 60 params.threshold_buckets
            (omega arith, omega arith),
        parse_buckets_lem (config "reportbuckets") 60 params.report_buckets
            (omega arith, omega arith),
        parse_relevant_address_lem (config "relevantaddress"),
      ) in
      (usable, λ average db r. Reaches-IsWellFormed average params usable.2.0 r)
