-- ===== src/Thresholds/Options.antt =====
-- segments/analysis/traffic_specific_toptalkers/traffic-specific-toptalkers.go: `New`, and the
-- definitions of the configuration. `parse` is the filter parser, without its error; the numbers
-- of a definition are not negative. A metric that is none is a nil pointer.
pub mod Nil
mod Tests
use flowpipeline.Base.{
  Bool, true, false, ◌&&◌, List, [], ◌∷◌, Option, none, some, String, str_eq, if◌then◌else◌,
}
use flowpipeline.FlowFilter.Nodes.{Expression}
use flowpipeline.Toptalkers.Database.{MetricsParams}
use flowpipeline.Toptalkers.Params.{
  PrometheusParams, init_default_prometheus_params, init_default_prometheus_metric_params,
}
use flowpipeline.Thresholds.{ThresholdMetric, metric, SubDefinitions, no_more, more, init_databases}

-- `ThresholdMetricDefinition`: the parameters, the filter and the definitions below it.
mutual
  pub data Definition : Type 0 where
    definition : MetricsParams → String → Definitions → Definition

  pub data Definitions : Type 0 where
    no_definitions : Definitions
    one_more : Definition → Definitions → Definitions

-- What `New` returns: the paths and the relevant address. `metricspath` is assigned to the path of
-- the flow data.
unfoldable pub new : (String → String) → PrometheusParams × String
new config =
    let d : PrometheusParams = init_default_prometheus_params in
    let endpoint = if str_eq (config "endpoint") "" then d.endpoint else config "endpoint" in
    let first =
      if str_eq (config "metricspath") "" then d.flowdata_path else config "metricspath" in
    let second = if str_eq (config "flowdatapath") "" then first else config "flowdatapath" in
    (
      record { endpoint = endpoint; metrics_path = d.metrics_path; flowdata_path = second },
      config "relevantaddress",
    )

-- The parameters of a metric.
abbrev pub params_of : String → MetricsParams → MetricsParams
params_of relevant_address params =
    let p : MetricsParams = init_default_prometheus_metric_params params in
    if str_eq relevant_address "" then p else record p { relevant_address = relevant_address }

module _ (parse : String → Option Expression) (relevant_address : String) where
  -- `metricFromDefinition`, and its loop over the definitions below; none is an error.
  unfoldable mutual
    pub metric_from_definition : Definition → Option ThresholdMetric
    metric_from_definition (definition params filter subs) =
        let subs' = metrics_from_definitions subs in
        elim (parse filter) [
          | none ↦ none
          | some expression ↦ elim subs' [
            | none ↦ none
            | some ms ↦ some (metric (params_of relevant_address params) none expression ms)
          ]
        ]

    pub metrics_from_definitions : Definitions → Option SubDefinitions
    metrics_from_definitions no_definitions = some no_more
    metrics_from_definitions (one_more d ds) =
        let first = metric_from_definition d in
        let rest = metrics_from_definitions ds in
        elim first [ none ↦ none | some m ↦ elim rest [ none ↦ none | some ms ↦ some (more m ms) ] ]

  -- `AddCustomConfig`: an error is logged, and the nil that comes with it is appended too.
  unfoldable pub add_custom_config : List Definition → List (Option ThresholdMetric)
  unfolding metric_from_definition
  add_custom_config [] = []
  add_custom_config (d ∷ ds) = metric_from_definition d ∷ add_custom_config ds

-- `initDatabasesAndCollector`, which `Run` starts with: none is a panic on a nil metric.
unfoldable pub init_all : List (Option ThresholdMetric) → Option SubDefinitions
init_all [] = some no_more
init_all (none ∷ ms) = none
init_all (some m ∷ ms) = elim (init_all ms) [
  | none ↦ none
  | some ms' ↦ some (more (init_databases m) ms')
]
