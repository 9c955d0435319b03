-- ===== src/Aggregate/Cache.antt =====
-- segments/filter/aggregate: the cache with its mutex, and the segment. Each method that takes the
-- mutex is one step, given the time that `time.Now` returns in it.
use flowpipeline.Base.{
  ℕ, ◌-◌, ◌*◌, Bool, false, List, [], ◌∷◌, ◌++◌, Option, none, some, String, ltb, if◌then◌else◌,
}
use flowpipeline.Flow.{Bytes, Flow}
use flowpipeline.Dictionary.{find, put, export, export_where}
use flowpipeline.Aggregate.{
  Layer, ethernet, ipv4, ipv6, tcp, udp, icmpv4, icmpv6, other, Packet, FlowKey, FlowRecord,
  new_flow_key, new_flow_key_from_flow, same_key, build_flow,
}

-- A mutex; a call of `Lock` on the nil pointer panics.
pub data Mutex : Type 0 where
  nil_mutex unlocked locked : Mutex

pub record FlowExporter : Type 0 where
  pub active_timeout : ℕ
  pub inactive_timeout : ℕ
  pub sampler_address : Bytes
  pub hardware_address : List ℕ
  pub mutex : Mutex
  pub cache : List (FlowKey × FlowRecord)

-- `NewFlowExporter` and `Start`, for the parser `time.ParseDuration` without its error.
unfoldable pub new_flow_exporter : (String → Option ℕ) → String → String → Option FlowExporter
new_flow_exporter parse_duration active inactive = elim (parse_duration active) [
  | none ↦ none
  | some a ↦ elim (parse_duration inactive) [
    | none ↦ none
    | some i ↦ some (record {
      active_timeout = a;
      inactive_timeout = i;
      sampler_address = none;
      hardware_address = [];
      mutex = unlocked;
      cache = [];
    })
  ]
]

unfoldable pub start : Bytes → List ℕ → FlowExporter → FlowExporter
start sampler hardware f = record f { sampler_address = sampler; hardware_address = hardware }

-- What a step comes to: the cache and the flows that are exported, a panic, or a wait for ever.
pub data Outcome : Type 0 where
  done : FlowExporter → List Flow → Outcome
  panics blocks : Outcome

-- `f.mutex.Lock()`, and what is done after it.
unfoldable pub with_lock : Mutex → Outcome → Outcome
with_lock nil_mutex result = panics
with_lock unlocked result = result
with_lock locked result = blocks

-- `tcp.FIN` of the first TCP layer, if there is one.
unfoldable pub has_fin : List Layer → Bool
has_fin [] = false
has_fin (tcp src dst flags ∷ ls) = flags.fin
has_fin (ethernet etype src dst ∷ ls) = has_fin ls
has_fin (ipv4 src dst protocol tos ttl ∷ ls) = has_fin ls
has_fin (ipv6 src dst next_header traffic_class hop_limit flow_label ∷ ls) = has_fin ls
has_fin (udp src dst ∷ ls) = has_fin ls
has_fin (icmpv4 t c ∷ ls) = has_fin ls
has_fin (icmpv6 t c ∷ ls) = has_fin ls
has_fin (other ∷ ls) = has_fin ls

-- The record of a key, or a new one that is received at a time.
unfoldable pub found_or_new : ℕ → Option FlowRecord → FlowRecord
found_or_new time none = record {
  time_received = time;
  last_updated = 0;
  sampler_address = none;
  hardware_address = [];
  packets = [];
  flows = [];
}
found_or_new time (some r) = r

module _ (merge : Flow → Flow → Flow) (to_string : Bytes → List ℕ) where
  -- The outcome of the exports, which the mutex is unlocked after.
  unfoldable pub exported :
      FlowExporter → Option (List (FlowKey × FlowRecord) × List Flow) → Outcome
  exported f none = panics
  exported f (some (cache, msgs)) = done (record f { cache = cache }) msgs

  unfoldable pub exported_one : FlowExporter → Option (List (FlowKey × FlowRecord) × Flow) → Outcome
  exported_one f none = panics
  exported_one f (some (cache, msg)) = done (record f { cache = cache }) (msg ∷ [])

  -- `Insert`, after the lock.
  unfoldable pub insert_locked : Packet → FlowExporter → Outcome
  unfolding exported_one has_fin found_or_new
  insert_locked pkt f =
      let key = new_flow_key pkt in
      let r : FlowRecord = found_or_new pkt.timestamp (find same_key key f.cache) in
      let r' : FlowRecord = record r {
        last_updated = pkt.timestamp;
        sampler_address = f.sampler_address;
        packets = r.packets ++ (pkt ∷ []);
      } in
      let cache = put same_key key r' f.cache in
      if has_fin pkt.layers
      then exported_one f (export same_key (build_flow merge) key cache)
      else done (record f { cache = cache }) []

  unfoldable pub insert : Packet → FlowExporter → Outcome
  unfolding insert_locked with_lock
  insert pkt f = with_lock f.mutex (insert_locked pkt f)

  -- `InsertFlow`, which does not unlock. `time.Unix` takes seconds.
  unfoldable pub insert_flow : Flow → FlowExporter → Outcome
  unfolding with_lock found_or_new
  insert_flow flow f =
      let key = new_flow_key_from_flow to_string flow in
      let r : FlowRecord =
        found_or_new (flow.time_flow_start * 1000000000) (find same_key key f.cache) in
      let r' : FlowRecord = record r {
        last_updated = flow.time_flow_end * 1000000000;
        sampler_address = f.sampler_address;
        flows = r.flows ++ (flow ∷ []);
      } in
      with_lock f.mutex (done (record f { mutex = locked; cache = put same_key key r' f.cache }) [])

  -- A tick of `exportInactive` and of `exportActive`.
  unfoldable pub export_inactive : ℕ → FlowExporter → Outcome
  unfolding with_lock exported
  export_inactive now f = with_lock f.mutex (
      exported f (
        export_where same_key (build_flow merge)
          (λ r. ltb f.inactive_timeout (now - r.last_updated)) f.cache f.cache))

  unfoldable pub export_active : ℕ → FlowExporter → Outcome
  unfolding with_lock exported
  export_active now f = with_lock f.mutex (
      exported f (
        export_where same_key (build_flow merge) (λ r. ltb f.active_timeout (now - r.time_received))
          f.cache f.cache))

-- What takes the mutex, in the order in which it does. `ConsumeFrom` inserts each packet that it
-- receives and returns when the channel is closed.
pub data Step : Type 0 where
  inserts : Packet → Step
  inserts_flow : Flow → Step
  inactive_ticks active_ticks : ℕ → Step

module _ (merge : Flow → Flow → Flow) (to_string : Bytes → List ℕ) where
  unfoldable pub step : Step → FlowExporter → Outcome
  unfolding insert insert_flow export_inactive export_active
  step (inserts pkt) f = insert merge to_string pkt f
  step (inserts_flow flow) f = insert_flow merge to_string flow f
  step (inactive_ticks now) f = export_inactive merge to_string now f
  step (active_ticks now) f = export_active merge to_string now f

  -- What was exported, before what is exported later.
  unfoldable pub after : List Flow → Outcome → Outcome
  after msgs (done f msgs') = done f (msgs ++ msgs')
  after msgs panics = panics
  after msgs blocks = blocks

  unfoldable pub and_then : Outcome → (FlowExporter → Outcome) → Outcome
  unfolding after
  and_then (done f msgs) next = after msgs (next f)
  and_then panics next = panics
  and_then blocks next = blocks

  unfoldable pub run : List Step → FlowExporter → Outcome
  unfolding step and_then
  run [] f = done f []
  run (s ∷ ss) f = and_then (step s f) (run ss)

  -- `ConsumeFrom`, on a channel that is closed after its packets.
  unfoldable pub consume_from : List Packet → List Step
  consume_from [] = []
  consume_from (pkt ∷ pkts) = inserts pkt ∷ consume_from pkts

  -- `Aggregate.New`: the cache is the zero value.
  abbrev pub new : FlowExporter
  new = record {
    active_timeout = 0;
    inactive_timeout = 0;
    sampler_address = none;
    hardware_address = [];
    mutex = nil_mutex;
    cache = [];
  }

  -- `Aggregate.Run`: the channel `Flows` of the zero value is nil, and never sends.
  unfoldable pub run_segment : List Flow → Outcome
  unfolding step
  run_segment msgs = inserted msgs new
    where
      inserted : List Flow → FlowExporter → Outcome
      inserted [] f = done f []
      inserted (msg ∷ msgs) f = elim (step (inserts_flow msg) f) [
        | done f' sent ↦ inserted msgs f'
        | panics ↦ panics
        | blocks ↦ blocks
      ]
