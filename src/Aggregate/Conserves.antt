-- ===== src/Aggregate/Conserves.antt =====
-- The cache loses no packet and no byte, never panics, and never blocks while no flow is inserted.
use flowpipeline.Base.{
  ℕ, ◌+◌, ◌-◌, ◌%◌, Bool, List, [], ◌∷◌, ◌++◌, Option, none, some, ◌≡◌, refl, arith, u64_mod, All,
  Bool-cases, Option-cases, inl, inr, ltb, sym, subst,
}
use flowpipeline.Flow.{Bytes, Flow}
use flowpipeline.Dictionary.{find, put, export, export_where, held}
use flowpipeline.Dictionary.Laws.{
  Distinct, AllRecords, find-AllRecords, find-put, put-Distinct, put-AllRecords,
}
use flowpipeline.Dictionary.Exports
use flowpipeline.Dictionary.Exports.{sum, tick-Conserves, held-put_more, export-Conserves}
use flowpipeline.Aggregate.{Packet, FlowKey, FlowRecord, same_key, new_flow_key, build_flow}
use flowpipeline.Aggregate.Same.{same_key-IsEquality}
use flowpipeline.Aggregate.Counts.{one, size, build_flow_counts, total, IsOfPackets}
use flowpipeline.Aggregate.Cache.{
  unlocked, FlowExporter, Outcome, done, panics, blocks, with_lock, has_fin, found_or_new, exported,
  exported_one, insert_locked, insert, export_inactive, export_active, Step, inserts, inserts_flow,
  inactive_ticks, active_ticks, step, after, and_then, run,
}

-- The mutex is free, the keys are distinct, and no flows were added to a record.
abbrev pub IsOpen : FlowExporter → Type 0
IsOpen f =
    (f.mutex ≡ unlocked) × Distinct same_key f.cache × AllRecords same_key IsOfPackets f.cache

-- A step that inserts no flow.
abbrev pub OfPackets : Step → Type 0
OfPackets (inserts pkt) = Unit
OfPackets (inserts_flow flow) = ⊥
OfPackets (inactive_ticks now) = Unit
OfPackets (active_ticks now) = Unit

-- A number of a flow, and the same of each packet.
module _ (count : Flow → ℕ) (w : Packet → ℕ) where
  abbrev pub weight : FlowRecord → ℕ
  weight r = total w r.packets

  -- What was exported and what is cached count together, modulo 2^64, what was cached and `n` more.
  abbrev pub Conserves : FlowExporter → ℕ → Outcome → Type 0
  Conserves f n panics = ⊥
  Conserves f n blocks = ⊥
  Conserves f n (done f' msgs) =
      IsOpen f'
      × ((sum count msgs + held weight f'.cache) % u64_mod ≡ (held weight f.cache + n) % u64_mod)

  total-append : (ps : List Packet) (p : Packet) → total w (ps ++ (p ∷ [])) ≡ total w ps + w p
  total-append [] p = omega arith
  total-append (q ∷ ps) p = omega (arith, total-append ps p)

  module _ (merge : Flow → Flow → Flow) (to_string : Bytes → List ℕ) where
    abbrev pub Counts : Type 0
    Counts =
        (r : FlowRecord) → IsOfPackets r → count (build_flow merge r) % u64_mod ≡ weight r % u64_mod

    exported-Conserves :
        (f f' : FlowExporter) (n : ℕ) (result : Option (List (FlowKey × FlowRecord) × List Flow))
        → f'.mutex ≡ unlocked
        → Exports.Conserves same_key same_key-IsEquality
            (build_flow merge)
            count
            weight
            IsOfPackets
            f.cache
            n
            result
        → Conserves f n (exported merge to_string f' result)
    unfolding exported
    exported-Conserves f f' n none u c = c
    exported-Conserves f f' n (some (cache, msgs)) u (d, a, e) = ((u, d, a), e)

    tick_lem :
        Counts
        → (f : FlowExporter) (test : FlowRecord → Bool) → IsOpen f
        → Conserves f 0 (
            exported merge to_string f
              (export_where same_key (build_flow merge) test f.cache f.cache))
    tick_lem c f test (u, d, a) =
        exported-Conserves f f 0 (export_where same_key (build_flow merge) test f.cache f.cache) u (
          tick-Conserves same_key same_key-IsEquality (build_flow merge) count weight IsOfPackets c
            test f.cache d a)

    -- What `Insert` puts into the cache.
    updated : Packet → FlowExporter → FlowRecord
    unfolding found_or_new
    updated pkt f =
        let r : FlowRecord =
          found_or_new pkt.timestamp (find same_key (new_flow_key pkt) f.cache) in
        record r {
          last_updated = pkt.timestamp;
          sampler_address = f.sampler_address;
          packets = r.packets ++ (pkt ∷ []);
        }

    updated-IsOfPackets :
        (pkt : Packet) (f : FlowExporter)
        → AllRecords same_key IsOfPackets f.cache
        → IsOfPackets (updated pkt f)
    unfolding updated found_or_new
    updated-IsOfPackets pkt f a = elim (Option-cases (find same_key (new_flow_key pkt) f.cache)) [
      | inl e ↦ rw e refl
      | inr (r, e) ↦ rw e (find-AllRecords same_key IsOfPackets (new_flow_key pkt) r f.cache e a)
    ]

    held-updated :
        (pkt : Packet) (f : FlowExporter)
        → held weight (put same_key (new_flow_key pkt) (updated pkt f) f.cache)
          ≡ held weight f.cache + w pkt
    unfolding updated found_or_new
    held-updated pkt f =
        held-put_more same_key same_key-IsEquality (build_flow merge) count weight IsOfPackets
          (new_flow_key pkt) (updated pkt f) (w pkt) f.cache
          (λ s e. rw e (total-append s.packets pkt)) (λ e. rw e (omega arith))

    insert_locked-Conserves :
        Counts
        → (pkt : Packet) (f : FlowExporter) → IsOpen f
        → Conserves f (w pkt) (insert_locked merge to_string pkt f)
    unfolding insert_locked updated
    insert_locked-Conserves c pkt f (u, d, a) =
        let key = new_flow_key pkt in
        let r = updated pkt f in
        let m = put same_key key r f.cache in
        let d' = put-Distinct same_key same_key-IsEquality key r f.cache d in
        let a' =
          put-AllRecords same_key IsOfPackets key r f.cache (updated-IsOfPackets pkt f a) a in
        let there : find same_key key m ≡ some r = ground (
          arith,
          find-put same_key same_key-IsEquality key key r f.cache,
          same_key-IsEquality.0 key,
        ) in
        elim (Bool-cases (has_fin pkt.layers)) [
          | inr e ↦ rw e ((u, d', a'), omega (arith, held-updated pkt f))
          | inl e ↦ rw e (
              one_exported (export same_key (build_flow merge) key m) (
                export-Conserves same_key same_key-IsEquality (build_flow merge) count weight
                  IsOfPackets c key r (w pkt) f.cache m there d' a' (held-updated pkt f)))
        ]
      where
        one_exported :
            (result : Option (List (FlowKey × FlowRecord) × Flow))
            → Exports.Conserves same_key same_key-IsEquality
                (build_flow merge)
                count
                weight
                IsOfPackets
                f.cache
                (w pkt)
                (elim result [ none ↦ none | some (m'', msg) ↦ some (m'', msg ∷ []) ])
            → Conserves f (w pkt) (exported_one merge to_string f result)
        one_exported none c = c
        one_exported (some (cache, msg)) (d, a, e) = ((u, d, a), e)

    -- The packets that come in.
    abbrev pub counted : Step → ℕ
    counted (inserts pkt) = w pkt
    counted (inserts_flow flow) = 0
    counted (inactive_ticks now) = 0
    counted (active_ticks now) = 0

    abbrev pub counted_in : List Step → ℕ
    counted_in [] = 0
    counted_in (s ∷ ss) = counted s + counted_in ss

    locks :
        (f : FlowExporter) (n : ℕ) (result : Outcome)
        → f.mutex ≡ unlocked
        → Conserves f n result
        → Conserves f n (with_lock f.mutex result)
    unfolding with_lock
    locks f n result e c = subst (λ m. Conserves f n (with_lock m result)) (sym e) c

    step-Conserves :
        Counts
        → (s : Step) (f : FlowExporter) → OfPackets s
        → IsOpen f
        → Conserves f (counted s) (step merge to_string s f)
    unfolding step insert with_lock export_inactive export_active
    step-Conserves c (inserts pkt) f o h =
        locks f (w pkt) (insert_locked merge to_string pkt f) h.0
          (insert_locked-Conserves c pkt f h)
    step-Conserves c (inserts_flow flow) f o h = absurd o
    step-Conserves c (inactive_ticks now) f o h =
        locks f 0 _ h.0 (tick_lem c f (λ r. ltb f.inactive_timeout (now - r.last_updated)) h)
    step-Conserves c (active_ticks now) f o h =
        locks f 0 _ h.0 (tick_lem c f (λ r. ltb f.active_timeout (now - r.time_received)) h)

    sum-append : (a b : List Flow) → sum count (a ++ b) ≡ sum count a + sum count b
    sum-append [] b = omega arith
    sum-append (x ∷ a) b = omega (arith, sum-append a b)

    run-Conserves :
        Counts
        → (ss : List Step) (f : FlowExporter) → All OfPackets ss
        → IsOpen f
        → Conserves f (counted_in ss) (run merge to_string ss f)
    unfolding run after and_then
    run-Conserves c [] f o h = (h, omega arith)
    run-Conserves c (s ∷ ss) f (o, os) h =
        first (step merge to_string s f) (step-Conserves c s f o h)
          (λ f' h'. run-Conserves c ss f' os h')
      where
        joined :
            (f' : FlowExporter) (msgs : List Flow) (result : Outcome)
            → Conserves f (counted s) (done f' msgs)
            → Conserves f' (counted_in ss) result
            → Conserves f (counted s + counted_in ss) (after merge to_string msgs result)
        joined f' msgs panics a b = b
        joined f' msgs blocks a b = b
        joined f' msgs (done f'' msgs') a b = (b.0, omega (arith, a.1, b.1, sum-append msgs msgs'))

        first :
            (result : Outcome)
            → Conserves f (counted s) result
            → ((f' : FlowExporter)
                → IsOpen f'
                → Conserves f' (counted_in ss) (run merge to_string ss f'))
            → Conserves f
                (counted s + counted_in ss)
                (and_then merge to_string result (run merge to_string ss))
        first panics a later = a
        first blocks a later = a
        first (done f' msgs) a later = joined f' msgs (run merge to_string ss f') a (later f' a.0)

-- From a cache whose mutex is free, with distinct keys and no flows added to its records (as a new
-- one), through any packets and ticks of the two timers, in any order and at any times: nothing
-- panics or blocks, and the exported flows and the cache count together, modulo 2^64, the packets,
-- and so the bytes, that the cache held and those that came in; such a cache is left.
pub run_keeps_counts :
    (merge : Flow → Flow → Flow) (to_string : Bytes → List ℕ) (ss : List Step) (f : FlowExporter)
    → All OfPackets ss
    → IsOpen f
    → Conserves
        (λ msg. msg.packets)
        one
        f
        (counted_in (λ msg. msg.packets) one merge to_string ss)
        (run merge to_string ss f)
      × Conserves
          (λ msg. msg.bytes)
          size
          f
          (counted_in (λ msg. msg.bytes) size merge to_string ss)
          (run merge to_string ss f)
run_keeps_counts merge to_string ss f o h = (
  run-Conserves (λ msg. msg.packets) one merge to_string
      (λ r p. omega (arith, (build_flow_counts merge r p).0)) ss f o h,
  run-Conserves (λ msg. msg.bytes) size merge to_string
      (λ r p. omega (arith, (build_flow_counts merge r p).1)) ss f o h,
)
