-- ===== src/Thresholds/Counts.antt =====
-- Which databases count a flow, and that none is nil.
use flowpipeline.Base.{
  ◌≡◌, ◌≢◌, ◌⊎◌, inl, inr, refl, ap, ap₂, Bool, true, false, ◌&&◌, List, [], ◌∷◌, Option, none,
  some, String, str_eq, str_eq_iff, arith, if◌then◌else◌, Bool-cases,
}
use flowpipeline.Flow.{Bytes, Flow}
use flowpipeline.Flow.Status.{is_forwarded}
use flowpipeline.FlowFilter.Walk.{Walk, check_flow}
use flowpipeline.Toptalkers.Database.{MetricsParams, Database, append_typed}
use flowpipeline.Thresholds.{
  ThresholdMetric, SubDefinitions, metric, no_more, more, init_databases, init_sub_databases,
  keys_of, count_keys, count, add_message, add_to_all,
}

-- Every definition with a label has a database.
unfoldable mutual
  pub HasDatabases : ThresholdMetric → Type 0
  HasDatabases (metric params db expression subs) =
      ((params.traffic_type ≡ "") ⊎ (db ≢ none)) × AllHaveDatabases subs

  pub AllHaveDatabases : SubDefinitions → Type 0
  AllHaveDatabases no_more = Unit
  AllHaveDatabases (more m ms) = HasDatabases m × AllHaveDatabases ms

mutual
  unfolding init_databases init_sub_databases HasDatabases AllHaveDatabases

  pub init_databases-HasDatabases : (m : ThresholdMetric) → HasDatabases (init_databases m)
  init_databases-HasDatabases (metric params db expression subs) = (
    elim (Bool-cases (str_eq params.traffic_type "")) [
      | inl e ↦ inl (ground (arith, str_eq_iff params.traffic_type ""))
      | inr e ↦ inr (rw e (λ h. ground (arith, h)))
    ],
    init_sub_databases-AllHaveDatabases subs,
  )

  pub init_sub_databases-AllHaveDatabases :
      (ms : SubDefinitions) → AllHaveDatabases (init_sub_databases ms)
  init_sub_databases-AllHaveDatabases no_more = tt
  init_sub_databases-AllHaveDatabases (more m ms) =
      (init_databases-HasDatabases m, init_sub_databases-AllHaveDatabases ms)

abbrev both : Option ThresholdMetric → Option SubDefinitions → Option SubDefinitions
both first rest = elim first [
  | none ↦ none
  | some m' ↦ elim rest [ none ↦ none | some ms' ↦ some (more m' ms') ]
]

module _ (ip_string : Bytes → String) where
  -- A database with the traffic of a flow under each of the keys.
  abbrev pub with_keys : String → Flow → List String → Database → Database
  with_keys t msg [] db = db
  with_keys t msg (key ∷ keys) db =
      with_keys t msg keys (append_typed db t key msg.bytes msg.packets (is_forwarded msg)).1

  abbrev pub counted : MetricsParams → Flow → Option Database → Option Database
  counted params msg none = none
  counted params msg (some db) =
      if str_eq params.traffic_type ""
      then some db
      else some
          (with_keys params.traffic_type msg (keys_of ip_string params.relevant_address msg) db)

  count_keys_lem :
      (t : String) (msg : Flow) (keys : List String) (db : Database)
      → count_keys ip_string t msg keys (some db) ≡ some (some (with_keys t msg keys db))
  unfolding count_keys
  count_keys_lem t msg [] db = refl
  count_keys_lem t msg (key ∷ keys) db = count_keys_lem t msg keys _

  count_lem :
      (params : MetricsParams) (msg : Flow) (db : Option Database)
      → (params.traffic_type ≡ "") ⊎ (db ≢ none)
      → count ip_string params msg db ≡ some (counted params msg db)
  unfolding count
  count_lem params msg none (inl e) = ground (arith, str_eq_iff params.traffic_type "")
  count_lem params msg none (inr n) = absurd (n refl)
  count_lem params msg (some db) h = ground (
    arith,
    count_keys_lem params.traffic_type msg (keys_of ip_string params.relevant_address msg) db,
  )

  module _ (walk : Walk) (msg : Flow) where
    -- The tree after a flow, definition by definition: `above` says whether all filters above
    -- match it. A definition counts the flow if they and its own filter do; its filter is only
    -- evaluated if they do.
    unfoldable mutual
      pub expected : Bool → ThresholdMetric → ThresholdMetric
      expected above (metric params db expression subs) =
          let (expression', match, status) = check_flow walk expression msg in
          metric params (if above && match then counted params msg db else db)
            (if above then expression' else expression) (all_expected (above && match) subs)

      pub all_expected : Bool → SubDefinitions → SubDefinitions
      all_expected above no_more = no_more
      all_expected above (more m ms) = more (expected above m) (all_expected above ms)

    mutual
      unfolding expected all_expected

      expected-false : (m : ThresholdMetric) → expected false m ≡ m
      expected-false (metric params db expression subs) =
          ap (metric params db expression) (all_expected-false subs)

      all_expected-false : (ms : SubDefinitions) → all_expected false ms ≡ ms
      all_expected-false no_more = refl
      all_expected-false (more m ms) = ap₂ more (expected-false m) (all_expected-false ms)

    mutual
      unfolding expected all_expected add_message add_to_all HasDatabases AllHaveDatabases

      -- With its databases in place, adding a flow does not panic, and each definition counts it
      -- exactly if its own filter and all filters above match the flow.
      pub add_message_lem :
          (m : ThresholdMetric)
          → HasDatabases m
          → add_message ip_string walk msg m ≡ some (expected true m)
      add_message_lem (metric params db expression subs) h =
          elim (Bool-cases (check_flow walk expression msg).1) [
            | inl e ↦ rw (e, count_lem params msg db h.0, add_to_all_lem subs h.1) refl
            | inr e ↦ rw (e, all_expected-false subs) refl
          ]

      pub add_to_all_lem :
          (ms : SubDefinitions)
          → AllHaveDatabases ms
          → add_to_all ip_string walk msg ms ≡ some (all_expected true ms)
      add_to_all_lem no_more h = refl
      add_to_all_lem (more m ms) h = ap₂ both (add_message_lem m h.0) (add_to_all_lem ms h.1)

    counted-some :
        (params : MetricsParams) (db : Option Database) → db ≢ none → counted params msg db ≢ none
    counted-some params none h = absurd (h refl)
    counted-some params (some db) h = ground (arith)

    mutual
      unfolding expected all_expected HasDatabases AllHaveDatabases

      expected-HasDatabases :
          (above : Bool) (m : ThresholdMetric) → HasDatabases m → HasDatabases (expected above m)
      expected-HasDatabases above (metric params db expression subs) h = (
        ground (arith, counted-some params db),
        all_expected-AllHaveDatabases (above && (check_flow walk expression msg).1) subs h.1,
      )

      all_expected-AllHaveDatabases :
          (above : Bool) (ms : SubDefinitions)
          → AllHaveDatabases ms
          → AllHaveDatabases (all_expected above ms)
      all_expected-AllHaveDatabases above no_more h = tt
      all_expected-AllHaveDatabases above (more m ms) h =
          (expected-HasDatabases above m h.0, all_expected-AllHaveDatabases above ms h.1)

  module _ (walk : Walk) where
    abbrev pub expected_run : SubDefinitions → List Flow → SubDefinitions
    expected_run ms [] = ms
    expected_run ms (msg ∷ msgs) = expected_run (all_expected walk msg true ms) msgs
