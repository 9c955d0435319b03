-- ===== src/Thresholds/Tests.antt =====
-- A tree of two definitions at concrete inputs.
use flowpipeline.Base.{◌≡◌, true, none, some, String}
use flowpipeline.Flow.{Bytes, Flow, empty_flow}
use flowpipeline.FlowFilter.Nodes.{fine, empty}
use flowpipeline.FlowFilter.Walk.{Walk}
use flowpipeline.Toptalkers.Database.{MetricsParams}
use flowpipeline.Thresholds.{ThresholdMetric, metric, no_more, more, init_databases, add_message}
use flowpipeline.Thresholds.Counts.{init_databases-HasDatabases, expected, add_message_lem}

-- The walk of a filter that matches every flow.
abbrev walk : Walk
walk = record { walk_expression = λ f e. (empty true, fine); walk_statement = λ f s. (s, fine) }

abbrev ip_string : Bytes → String
ip_string none = "a"
ip_string (some l) = "b"

abbrev params : MetricsParams
params = record {
  traffic_type = "web";
  buckets = 60;
  threshold_buckets = 2;
  report_buckets = 3;
  bucket_duration = 1;
  threshold_bps = 100;
  threshold_pps = 1;
  relevant_address = "connection";
  cleanup_window_sizes = 5;
}

abbrev tree : ThresholdMetric
tree =
    metric (record params { traffic_type = "" }) none (empty true)
      (more (metric params none (empty true) no_more) no_more)

abbrev web : Flow
web = record empty_flow { bytes = 150; packets = 1; dst_port = 443 }

add_message_lem_example :
    add_message ip_string walk web (init_databases tree)
    ≡ some (expected ip_string walk web true (init_databases tree))
add_message_lem_example =
    add_message_lem ip_string walk web (init_databases tree) (init_databases-HasDatabases tree)
