-- ===== src/Toptalkers/Metrics.antt =====
-- `ToptalkersMetrics.Run` of toptalkers_metrics.go: the filter that passes the flows of the
-- addresses that are above threshold. `ip_string` is `net.IP.String`.
pub mod Forwards
use flowpipeline.Base.{ℕ, Bool, true, false, ◌||◌, List, [], ◌∷◌, String, str_eq, if◌then◌else◌}
use flowpipeline.Flow.{Bytes, Flow}
use flowpipeline.Flow.Status.{is_forwarded}
use flowpipeline.Segment
use flowpipeline.Segment.{Sent, forward, discard}
use flowpipeline.Toptalkers.Database.{Database, append_typed}

-- `for _, key := range keys { … }`.
unfoldable pub count_keys : Database → Flow → List String → Bool → Database × Bool
count_keys db msg [] forwarded = (db, forwarded)
count_keys db msg (key ∷ keys) forwarded =
    let (record', db') = append_typed db "" key msg.bytes msg.packets (is_forwarded msg) in
    count_keys db' msg keys (if record'.above_threshold then true else forwarded)

-- `switch segment.RelevantAddress`: where no case applies, `keys` stays nil.
unfoldable pub keys_of : (Bytes → String) → String → Flow → List String
keys_of ip_string relevant_address msg =
    if str_eq relevant_address "source"
    then ip_string msg.src_addr ∷ []
    else if str_eq relevant_address "destination"
    then ip_string msg.dst_addr ∷ []
    else if str_eq relevant_address "both"
    then ip_string msg.src_addr ∷ ip_string msg.dst_addr ∷ []
    else []

module _ (ip_string : Bytes → String) (relevant_address : String) (subscribed : Bool) where
  unfoldable pub step : Database → Flow → Database × Sent
  unfolding keys_of count_keys
  step db msg =
      let (db', forwarded) = count_keys db msg (keys_of ip_string relevant_address msg) false in
      (db', if forwarded then forward msg else discard subscribed msg)

  unfoldable pub run : Database → List Flow → Database × Sent
  run = Segment.run step
