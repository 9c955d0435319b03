-- ===== src/Toptalkers/Metrics/Forwards.antt =====
-- Which flows the segment passes.
use mathlib.Core.List.{Perm}
use flowpipeline.Base.{
  ℕ, ◌≡◌, refl, Bool, true, false, List, [], ◌∷◌, none, some, String, arith, str_eq_iff,
  if◌then◌else◌, inl, inr, Bool-cases, ◌∙◌, ap, ◌++◌, ◌≢◌,
}
use flowpipeline.Flow.{Bytes, Flow}
use flowpipeline.Flow.Status.{is_forwarded}
use flowpipeline.Segment
use flowpipeline.Segment.Filters.{Filters, out-append-drops-perm}
use flowpipeline.Segment.{forward, discard}
use flowpipeline.Toptalkers.Record.{Record, append, new_record}
use flowpipeline.Toptalkers.Database.{Database, find, append_typed, record_key}
use flowpipeline.Toptalkers.Database.Entries.{find-append_typed, record_or_new}
use flowpipeline.Toptalkers.Metrics.{keys_of, count_keys, step, run}

-- Is the address above threshold in the database?
abbrev pub is_above : Database → String → Bool
is_above db key = elim (find (record_key "" key) db.database) [
  | none ↦ false
  | some r ↦ r.above_threshold
]

abbrev pub any_above : Database → List String → Bool
any_above db [] = false
any_above db (key ∷ keys) = if is_above db key then true else any_above db keys

above-append :
    (r : Record) (b p : ℕ) (fwd : Bool) → (append r b p fwd).above_threshold ≡ r.above_threshold
unfolding append
above-append r b p true = refl
above-append r b p false = refl

above-new_record : (n : ℕ) (a : String) → (new_record n a).above_threshold ≡ false
unfolding new_record
above-new_record n a = refl

above-append_typed :
    (db : Database) (key : String) (b p : ℕ) (fwd : Bool) (j : String)
    → is_above (append_typed db "" key b p fwd).1 j ≡ is_above db j
above-append_typed db key b p fwd j = ground (
  arith,
  find-append_typed db "" key b p fwd (record_key "" j),
  above-append (record_or_new db "" key) b p fwd,
  above-new_record db.report_buckets key,
  str_eq_iff (record_key "" key) (record_key "" j),
)

record-append_typed :
    (db : Database) (key : String) (b p : ℕ) (fwd : Bool)
    → (append_typed db "" key b p fwd).0.above_threshold ≡ is_above db key
unfolding append_typed
record-append_typed db key b p fwd =
    ground (
      arith,
      above-append (record_or_new db "" key) b p fwd,
      above-new_record db.report_buckets key,
    )

any_above-append_typed :
    (db : Database) (key : String) (b p : ℕ) (fwd : Bool) (keys : List String)
    → any_above (append_typed db "" key b p fwd).1 keys ≡ any_above db keys
any_above-append_typed db key b p fwd [] = refl
any_above-append_typed db key b p fwd (j ∷ keys) =
    rw (above-append_typed db key b p fwd j, any_above-append_typed db key b p fwd keys)

count_keys_lem :
    (db : Database) (msg : Flow) (keys : List String) (forwarded : Bool)
    → (count_keys db msg keys forwarded).1 ≡ (if any_above db keys then true else forwarded)
unfolding count_keys
count_keys_lem db msg [] forwarded = refl
count_keys_lem db msg (key ∷ keys) forwarded =
    let b = msg.bytes in
    let p = msg.packets in
    let fwd = is_forwarded msg in
    let (r, db') = append_typed db "" key b p fwd in
    ground (
      arith,
      count_keys_lem db' msg keys (if r.above_threshold then true else forwarded),
      record-append_typed db key b p fwd,
      any_above-append_typed db key b p fwd keys,
    )

module _ (ip_string : Bytes → String) (relevant_address : String) (subscribed : Bool) where
  -- A flow is passed exactly when one of its relevant addresses was above threshold in the
  -- database before the flow was counted; otherwise it is dropped.
  pub step-sent :
      (db : Database) (msg : Flow)
      → (step ip_string relevant_address subscribed db msg).1 ≡ (
          if any_above db (keys_of ip_string relevant_address msg)
          then forward msg
          else discard subscribed msg)
  unfolding step
  step-sent db msg =
      let keys = keys_of ip_string relevant_address msg in
      rw (count_keys_lem db msg keys false)
        (elim (Bool-cases (any_above db keys)) [ inl e ↦ rw e | inr e ↦ rw e ])

  step-Filters : Filters (step ip_string relevant_address subscribed) subscribed
  step-Filters db msg =
      let keys = keys_of ip_string relevant_address msg in
      elim (Bool-cases (any_above db keys)) [
        | inl e ↦
            inl (step-sent db msg ∙ ap (λ b. if b then forward msg else discard subscribed msg) e)
        | inr e ↦
            inr (step-sent db msg ∙ ap (λ b. if b then forward msg else discard subscribed msg) e)
      ]

-- With its drops subscribed to, the segment sends each flow exactly once, on one of its two
-- channels, whatever is in the database.
pub run-perm :
    (ip_string : Bytes → String) (relevant_address : String) (db : Database) (ms : List Flow)
    → let sent = (run ip_string relevant_address true db ms).1 in Perm (sent.out ++ sent.drops) ms
unfolding run
run-perm ip_string relevant_address db ms =
    out-append-drops-perm (step ip_string relevant_address true)
      (step-Filters ip_string relevant_address true) db ms

-- If the configured address is none of source, destination and both, every flow is dropped and
-- none sent on.
pub run-irrelevant :
    (ip_string : Bytes → String) (relevant_address : String) (db : Database) (ms : List Flow)
    → relevant_address ≢ "source"
    → relevant_address ≢ "destination"
    → relevant_address ≢ "both"
    → let sent = (run ip_string relevant_address true db ms).1 in
      (sent.out ≡ []) × (sent.drops ≡ ms)
unfolding run Segment.run keys_of
run-irrelevant ip_string address db [] s d b = (refl, refl)
run-irrelevant ip_string address db (m ∷ ms) s d b =
    let (outs, drops) =
      run-irrelevant ip_string address (step ip_string address true db m).0 ms s d b in
    let dropped : (step ip_string address true db m).1 ≡ discard true m =
      step-sent ip_string address true db m
      ∙ ap (λ keys. if any_above db keys then forward m else discard true m) no_keys in
    rw dropped (outs, ap (λ l. m ∷ l) drops)
  where
    no_keys : keys_of ip_string address m ≡ []
    no_keys = ground (
      arith,
      str_eq_iff address "source",
      str_eq_iff address "destination",
      str_eq_iff address "both",
    )
