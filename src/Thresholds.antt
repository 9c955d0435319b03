-- ===== src/Thresholds.antt =====
-- segments/analysis/traffic_specific_toptalkers/traffic-specific-toptalkers.go: a tree of filters,
-- each with a database that counts the flows that the filter and all filters above it match. A
-- result of none is a panic on a nil database. `walk` is the visit of an expression
-- (FlowFilter/Walk), `ip_string` is `net.IP.String`.
pub mod Counts
pub mod Options
mod Tests
use flowpipeline.Base.{
  Bool, true, false, List, [], ◌∷◌, Option, none, some, String, ◌⧺◌, str_eq, if◌then◌else◌,
}
use flowpipeline.Flow.{Bytes, Flow}
use flowpipeline.Flow.Status.{is_forwarded}
use flowpipeline.FlowFilter.Nodes.{Expression}
use flowpipeline.FlowFilter.Walk.{Walk, check_flow}
use flowpipeline.Toptalkers.Database.{MetricsParams, Database, new_database, append_typed}

-- `ThresholdMetric`: the parameters, the database, the expression and the sub-definitions.
mutual
  pub data ThresholdMetric : Type 0 where
    metric : MetricsParams → Option Database → Expression → SubDefinitions → ThresholdMetric

  pub data SubDefinitions : Type 0 where
    no_more : SubDefinitions
    more : ThresholdMetric → SubDefinitions → SubDefinitions

-- `initDatabasesForFilter`: the tree with its databases.
unfoldable mutual
  pub init_databases : ThresholdMetric → ThresholdMetric
  init_databases (metric params db expression subs) =
      let subs' = init_sub_databases subs in
      metric params (if str_eq params.traffic_type "" then db else some (new_database params))
        expression subs'

  pub init_sub_databases : SubDefinitions → SubDefinitions
  init_sub_databases no_more = no_more
  init_sub_databases (more m ms) = more (init_databases m) (init_sub_databases ms)

module _ (ip_string : Bytes → String) where
  -- `switch … RelevantAddress`.
  unfoldable pub keys_of : String → Flow → List String
  keys_of relevant_address msg =
      if str_eq relevant_address "source"
      then ip_string msg.src_addr ∷ []
      else if str_eq relevant_address "destination"
      then ip_string msg.dst_addr ∷ []
      else if str_eq relevant_address "both"
      then ip_string msg.src_addr ∷ ip_string msg.dst_addr ∷ []
      else if str_eq relevant_address "connection"
      then (ip_string msg.src_addr ⧺ " -> " ⧺ ip_string msg.dst_addr) ∷ []
      else []

  -- `for _, key := range keys { … }`.
  unfoldable pub count_keys :
      String → Flow → List String → Option Database → Option (Option Database)
  count_keys traffic_type msg [] db = some db
  count_keys traffic_type msg (key ∷ keys) none = none
  count_keys traffic_type msg (key ∷ keys) (some db) =
      count_keys traffic_type msg keys
        (some (append_typed db traffic_type key msg.bytes msg.packets (is_forwarded msg)).1)

  -- The part for a definition with a label.
  unfoldable pub count : MetricsParams → Flow → Option Database → Option (Option Database)
  count params msg db =
      if str_eq params.traffic_type ""
      then some db
      else count_keys params.traffic_type msg (keys_of params.relevant_address msg) db

  module _ (walk : Walk) where
    -- `addMessageToMatchingToptalkers`, and its loop over the sub-definitions.
    unfoldable mutual
      pub add_message : Flow → ThresholdMetric → Option ThresholdMetric
      add_message msg (metric params db expression subs) =
          let (expression', match, status) = check_flow walk expression msg in
          let rest = add_to_all msg subs in
          if match
          then elim (count params msg db) [
            | none ↦ none
            | some db' ↦ elim rest [
              | none ↦ none
              | some subs' ↦ some (metric params db' expression' subs')
            ]
          ]
          else some (metric params db expression' subs)

      pub add_to_all : Flow → SubDefinitions → Option SubDefinitions
      add_to_all msg no_more = some no_more
      add_to_all msg (more m ms) =
          let first = add_message msg m in
          let rest = add_to_all msg ms in
          elim first [
            | none ↦ none
            | some m' ↦ elim rest [ none ↦ none | some ms' ↦ some (more m' ms') ]
          ]

    -- The loop of `Run`, which sends each flow on.
    unfoldable pub run : SubDefinitions → List Flow → Option (SubDefinitions × List Flow)
    run definitions [] = some (definitions, [])
    run definitions (msg ∷ msgs) = elim (add_to_all msg definitions) [
      | none ↦ none
      | some definitions' ↦ elim (run definitions' msgs) [
        | none ↦ none
        | some (last, sent) ↦ some (last, msg ∷ sent)
      ]
    ]
