-- ===== src/Toptalkers/Params.antt =====
-- The options of toptalker_prometheus.go and of `ToptalkersMetrics.New`. The configuration is a map
-- in which a missing option reads as the empty text. `parse_int` is `strconv.ParseInt(s, 10, 64)`,
-- `parse_uint` is `strconv.ParseUint(s, 10, 32)`, both without their error.
pub mod Valid
use flowpipeline.Base.{
  ℤ, pos, negsuc, ℕ, ◌-◌, ◌^◌, Bool, true, false, ◌||◌, not, Option, none, some, String, str_eq,
  ltb, ◌==◌, if◌then◌else◌, ◌>>=◌,
}
use flowpipeline.Toptalkers.Database.{MetricsParams}

abbrev pub max_int : ℕ
max_int = 2 ^ 63 - 1

pub record PrometheusParams : Type 0 where
  pub endpoint : String
  pub metrics_path : String
  pub flowdata_path : String

unfoldable pub init_default_prometheus_params : PrometheusParams
init_default_prometheus_params = record {
  endpoint = ":8080";
  metrics_path = "/metrics";
  flowdata_path = "/flowdata";
}

-- A value, or the default where it is zero or empty.
abbrev pub or_default : ℕ → ℕ → ℕ
or_default value default = if value == 0 then default else value

unfoldable pub init_default_prometheus_metric_params : MetricsParams → MetricsParams
init_default_prometheus_metric_params params = record params {
  buckets = or_default params.buckets 60;
  threshold_buckets = or_default params.threshold_buckets 60;
  report_buckets = or_default params.report_buckets 60;
  bucket_duration = or_default params.bucket_duration 1;
  relevant_address =
      if str_eq params.relevant_address "" then "destination" else params.relevant_address;
  cleanup_window_sizes = or_default params.cleanup_window_sizes 5;
}

-- The zero value of the parameters.
abbrev pub no_params : MetricsParams
no_params = record {
  traffic_type = "";
  buckets = 0;
  threshold_buckets = 0;
  report_buckets = 0;
  bucket_duration = 0;
  threshold_bps = 0;
  threshold_pps = 0;
  relevant_address = "";
  cleanup_window_sizes = 0;
}

module _ (parse_int : String → Option ℤ) (parse_uint : String → Option ℕ) where
  -- An option that counts buckets: none is an error, and a text that does not parse keeps the old
  -- value.
  unfoldable pub parse_buckets : String → ℕ → Option ℕ
  parse_buckets value old = if str_eq value "" then some old else elim (parse_int value) [
    | none ↦ some old
    | some (pos n) ↦ if n == 0 then none else if ltb max_int n then none else some n
    | some (negsuc n) ↦ none
  ]

  unfoldable pub parse_threshold : String → ℕ → ℕ
  parse_threshold value old =
      if str_eq value "" then old else elim (parse_uint value) [ none ↦ old | some n ↦ n ]

  unfoldable pub parse_relevant_address : String → String → String
  parse_relevant_address value old =
      if str_eq value "destination"
        || str_eq value "source"
        || str_eq value "both"
        || str_eq value "connection"
      then value
      else old

  -- `ParsePrometheusConfig`: none is an error.
  unfoldable pub parse_prometheus_config : (String → String) → MetricsParams → Option MetricsParams
  parse_prometheus_config config params = do
    buckets ← parse_buckets (config "buckets") params.buckets
    threshold_buckets ← parse_buckets (config "thresholdbuckets") params.threshold_buckets
    report_buckets ← parse_buckets (config "reportbuckets") params.report_buckets
    some (record params {
      buckets = buckets;
      threshold_buckets = threshold_buckets;
      report_buckets = report_buckets;
      traffic_type =
          if str_eq (config "traffictype") "" then params.traffic_type else config "traffictype";
      threshold_bps = parse_threshold (config "thresholdbps") params.threshold_bps;
      threshold_pps = parse_threshold (config "thresholdpps") params.threshold_pps;
      relevant_address = parse_relevant_address (config "relevantaddress") params.relevant_address;
    })

  or_option : String → String → String
  or_option value old = if str_eq value "" then old else value

  -- `New`: none is nil.
  unfoldable pub new : (String → String) → Option (MetricsParams × PrometheusParams)
  unfolding or_option
  new config = do
    params ← parse_prometheus_config config (init_default_prometheus_metric_params no_params)
    some (
      params,
      record {
        endpoint = or_option (config "endpoint") init_default_prometheus_params.endpoint;
        metrics_path = or_option (config "metricspath") init_default_prometheus_params.metrics_path;
        flowdata_path =
            or_option (config "flowdatapath") init_default_prometheus_params.flowdata_path;
      },
    )
