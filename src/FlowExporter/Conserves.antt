-- ===== src/FlowExporter/Conserves.antt =====
-- The cache loses no packet and no byte, and never panics.
use Prim.Native.Nat.{bit_and}
use flowpipeline.Base.{
  ℕ, ◌+◌, ◌%◌, Bool, List, [], ◌∷◌, ◌++◌, Option, none, some, ◌≡◌, arith, u64_mod, All, Bool-cases,
  Option-cases, inl, inr, ltb, ◌==◌, ◌-◌,
}
use flowpipeline.Flow.{Flow}
use flowpipeline.FlowExporter.{
  Packet, FlowRecord, FlowKey, FlowExporter, Entries, find, remove, put, new_flow_key, build_flow,
  export, insert, export_where, export_inactive, export_active, Step, arrives, inactive_ticks,
  active_ticks, step, run,
}
use flowpipeline.FlowExporter.Cache.{
  Distinct, find-put, find-remove, put-Distinct, remove-Distinct, total, cached, cached-remove,
  cached-put_new, cached-put, same_key_refl, same_key-eq,
}
use flowpipeline.FlowExporter.Counts.{one, size, build_flow_counts}

abbrev pub sum_packets : List Flow → ℕ
sum_packets [] = 0
sum_packets (m ∷ ms) = m.packets + sum_packets ms

abbrev pub sum_bytes : List Flow → ℕ
sum_bytes [] = 0
sum_bytes (m ∷ ms) = m.bytes + sum_bytes ms

-- No panic, the keys stay distinct, and the exported flows and the cache hold together the
-- packets and the bytes that the cache held before and those that came in, modulo 2^64.
abbrev pub Conserves : Entries → ℕ → ℕ → Option (FlowExporter × List Flow) → Type 0
Conserves m packets bytes none = ⊥
Conserves m packets bytes (some (f, msgs)) =
    Distinct f.cache
    × ((sum_packets msgs + cached one f.cache) % u64_mod ≡ (cached one m + packets) % u64_mod)
    × ((sum_bytes msgs + cached size f.cache) % u64_mod ≡ (cached size m + bytes) % u64_mod)

-- The entries of a loop are those of the cache as far as the loop has not come to them.
abbrev Finds : Entries → Entries → Type 0
Finds entries m = All (λ e. find e.0 m ≡ some e.1) entries

Finds-remove :
    (k : FlowKey) (r : FlowRecord) (entries m : Entries)
    → find k entries ≡ none
    → Finds entries m
    → Finds entries (remove k m)
unfolding find
Finds-remove k r [] m h f = tt
Finds-remove k r ((j, s) ∷ entries) m h f = (
  ground (arith, find-remove k j m, same_key-eq k j, same_key_refl j),
  Finds-remove k r entries m (ground arith) f.1,
)

export_where-Conserves :
    (test : FlowRecord → Bool) (entries : Entries) (f : FlowExporter)
    → Distinct f.cache
    → Distinct entries
    → Finds entries f.cache
    → Conserves f.cache 0 0 (export_where test entries f)
unfolding export_where export
export_where-Conserves test [] f d e h = (d, omega arith, omega arith)
export_where-Conserves test ((k, r) ∷ entries) f d e h = elim (Bool-cases (test r)) [
  | inr no_export ↦ rw no_export (export_where-Conserves test entries f d e.1 h.1)
  | inl exports ↦
      rw (exports, h.0)
        (let f' : FlowExporter = record f { cache = remove k f.cache } in
          let ih =
            export_where-Conserves test entries f' (remove-Distinct k f.cache d) e.1
              (Finds-remove k r entries f.cache e.0 h.1) in
          first_export f' r (export_where test entries f') (cached-remove one k f.cache r h.0)
            (cached-remove size k f.cache r h.0) ih)
]
  where
    first_export :
        (f' : FlowExporter) (r : FlowRecord) (result : Option (FlowExporter × List Flow))
        → cached one f.cache ≡ total one r.packets + cached one f'.cache
        → cached size f.cache ≡ total size r.packets + cached size f'.cache
        → Conserves f'.cache 0 0 result
        → Conserves f.cache 0 0
            (elim result [ none ↦ none | some (f'', msgs) ↦ some (f'', build_flow r ∷ msgs) ])
    first_export f' r none p b c = c
    first_export f' r (some (f'', msgs)) p b (d, p', b') =
        (d, omega (arith, (build_flow_counts r).0), omega (arith, (build_flow_counts r).1))

total-append :
    (w : Packet → ℕ) (ps : List Packet) (p : Packet) → total w (ps ++ (p ∷ [])) ≡ total w ps + w p
total-append w [] p = omega arith
total-append w (q ∷ ps) p = omega (arith, total-append w ps p)

-- The record of a key, or the new one, with the packet: what `Insert` puts into the cache.
abbrev updated : Packet → ℕ → ℕ → FlowExporter → FlowRecord
updated pkt now now' f =
    let found : FlowRecord = elim (find (new_flow_key pkt) f.cache) [
      | none ↦ record {
        time_received = now;
        last_updated = 0;
        sampler_address = none;
        packets = [];
      }
      | some r ↦ r
    ] in
    record found {
      last_updated = now';
      sampler_address = f.sampler_address;
      packets = found.packets ++ (pkt ∷ []);
    }

cached-updated :
    (w : Packet → ℕ) (pkt : Packet) (now now' : ℕ) (f : FlowExporter)
    → cached w (put (new_flow_key pkt) (updated pkt now now' f) f.cache) ≡ cached w f.cache + w pkt
cached-updated w pkt now now' f = elim (Option-cases (find (new_flow_key pkt) f.cache)) [
  | inl e ↦
      let r : FlowRecord = record {
        time_received = now;
        last_updated = now';
        sampler_address = f.sampler_address;
        packets = pkt ∷ [];
      } in
      rw e (ground (arith, cached-put_new w (new_flow_key pkt) r f.cache))
  | inr (s, e) ↦
      let r : FlowRecord = record s {
        last_updated = now';
        sampler_address = f.sampler_address;
        packets = s.packets ++ (pkt ∷ []);
      } in
      rw e
        (ground (arith, cached-put w (new_flow_key pkt) r s f.cache, total-append w s.packets pkt))
]

insert-Conserves :
    (pkt : Packet) (now now' : ℕ) (f : FlowExporter)
    → Distinct f.cache
    → Conserves f.cache 1 pkt.bytes (insert pkt now now' f)
unfolding insert export
insert-Conserves pkt now now' f d =
    let key = new_flow_key pkt in
    let r : FlowRecord = updated pkt now now' f in
    let d' = put-Distinct key r f.cache d in
    let p = cached-updated one pkt now now' f in
    let b = cached-updated size pkt now now' f in
    let found : find key (put key r f.cache) ≡ some r =
      ground (arith, find-put key key r f.cache, same_key_refl key) in
    elim (Bool-cases (bit_and pkt.tcp_flags 1 == 1)) [
      | inr e ↦ rw e (d', omega (arith, p), omega (arith, b))
      | inl e ↦
          rw (e, found)
            (
              remove-Distinct key (put key r f.cache) d',
              omega (
                arith,
                p,
                cached-remove one key (put key r f.cache) r found,
                (build_flow_counts r).0,
              ),
              omega (
                arith,
                b,
                cached-remove size key (put key r f.cache) r found,
                (build_flow_counts r).1,
              ),
            )
    ]

Finds-self :
    (entries m : Entries)
    → Distinct entries
    → (find-entries : (k : FlowKey) (r : FlowRecord) → find k entries ≡ some r → find k m ≡ some r)
    → Finds entries m
unfolding find
Finds-self [] m d h = tt
Finds-self ((k, r) ∷ entries) m d h = (
  ground (arith, h k r, same_key_refl k),
  Finds-self entries m d.1 (λ j s e. ground (arith, h j s, same_key-eq k j)),
)

tick-Conserves :
    (test : FlowRecord → Bool) (f : FlowExporter)
    → Distinct f.cache
    → Conserves f.cache 0 0 (export_where test f.cache f)
tick-Conserves test f d =
    export_where-Conserves test f.cache f d d (Finds-self f.cache f.cache d (λ k r e. e))

-- The packets and the bytes that come in.
abbrev pub packets_in : Step → ℕ
packets_in (arrives pkt now now') = 1
packets_in (inactive_ticks now) = 0
packets_in (active_ticks now) = 0

abbrev pub bytes_in : Step → ℕ
bytes_in (arrives pkt now now') = pkt.bytes
bytes_in (inactive_ticks now) = 0
bytes_in (active_ticks now) = 0

abbrev pub sum_in : (Step → ℕ) → List Step → ℕ
sum_in w [] = 0
sum_in w (s ∷ ss) = w s + sum_in w ss

step-Conserves :
    (s : Step) (f : FlowExporter)
    → Distinct f.cache
    → Conserves f.cache (packets_in s) (bytes_in s) (step s f)
unfolding step export_inactive export_active
step-Conserves (arrives pkt now now') f d = insert-Conserves pkt now now' f d
step-Conserves (inactive_ticks now) f d =
    tick-Conserves (λ r. ltb f.inactive_timeout (now - r.last_updated)) f d
step-Conserves (active_ticks now) f d =
    tick-Conserves (λ r. ltb f.active_timeout (now - r.time_received)) f d

sum_packets-append : (a b : List Flow) → sum_packets (a ++ b) ≡ sum_packets a + sum_packets b
sum_packets-append [] b = omega arith
sum_packets-append (x ∷ a) b = omega (arith, sum_packets-append a b)

sum_bytes-append : (a b : List Flow) → sum_bytes (a ++ b) ≡ sum_bytes a + sum_bytes b
sum_bytes-append [] b = omega arith
sum_bytes-append (x ∷ a) b = omega (arith, sum_bytes-append a b)

-- From a cache with distinct keys (as an empty one), through any packets that arrive and ticks of
-- the two timers, in any order and at any times: nothing panics, the keys stay distinct, and the
-- exported flows and the cache count together, modulo 2^64, the packets and the bytes that the
-- cache held and those that arrived.
pub run-Conserves :
    (ss : List Step) (f : FlowExporter)
    → Distinct f.cache
    → Conserves f.cache (sum_in packets_in ss) (sum_in bytes_in ss) (run ss f)
unfolding run
run-Conserves [] f d = (d, omega arith, omega arith)
run-Conserves (s ∷ ss) f d =
    after (step s f) (step-Conserves s f d) (λ f' d'. run-Conserves ss f' d')
  where
    finally :
        (f' : FlowExporter) (msgs : List Flow) (result : Option (FlowExporter × List Flow))
        → Conserves f.cache (packets_in s) (bytes_in s) (some (f', msgs))
        → Conserves f'.cache (sum_in packets_in ss) (sum_in bytes_in ss) result
        → Conserves f.cache
            (packets_in s + sum_in packets_in ss)
            (bytes_in s + sum_in bytes_in ss)
            (elim result [ none ↦ none | some (f'', msgs') ↦ some (f'', msgs ++ msgs') ])
    finally f' msgs none c c' = c'
    finally f' msgs (some (f'', msgs')) (_, p, b) (d', p', b') = (
      d',
      omega (arith, p, p', sum_packets-append msgs msgs'),
      omega (arith, b, b', sum_bytes-append msgs msgs'),
    )

    after :
        (result : Option (FlowExporter × List Flow))
        → Conserves f.cache (packets_in s) (bytes_in s) result
        → ((f' : FlowExporter)
            → Distinct f'.cache
            → Conserves f'.cache (sum_in packets_in ss) (sum_in bytes_in ss) (run ss f'))
        → Conserves f.cache
            (packets_in s + sum_in packets_in ss)
            (bytes_in s + sum_in bytes_in ss)
            (elim result [
              | none ↦ none
              | some (f', msgs) ↦ elim (run ss f') [
                | none ↦ none
                | some (f'', msgs') ↦ some (f'', msgs ++ msgs')
              ]
            ])
    after none c later = absurd c
    after (some (f', msgs)) c later = finally f' msgs (run ss f') c (later f' c.0)
