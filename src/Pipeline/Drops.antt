-- ===== src/Pipeline/Drops.antt =====
-- What becomes of a flow on its way through a chain of filters.
use mathlib.Core.List.{Perm, append_assoc, append-nil, perm_append_comm}
use mathlib.Core.List.Perm
use flowpipeline.Base.{
  ℕ, suc, ◌+◌, ◌<◌, false, List, [], ◌∷◌, ◌++◌, Option, none, some, map, length, ◌≡◌, refl, arith,
  All, ◌>>=◌, ◌∙◌, ap, sym, subst, Returns,
}
use flowpipeline.Flow.{Flow}
use flowpipeline.Pipeline.{
  BaseSegment, Segment, single, Pipeline, rewire_base, rewire, subscribe_base, subscribe_drops,
  wire, wired, pass, new, get_drop, send, carry, singles, traffic,
}

-- The segment sends each flow once, on one of its channels.
abbrev pub Conserving : BaseSegment → Type 0
Conserving s = (ms : List Flow) → let m = s.messages s.subscribed ms in Perm (m.out ++ m.drops) ms

abbrev chain : ℕ → List BaseSegment → List BaseSegment
chain i [] = []
chain i (s ∷ ss) = subscribe_base (rewire_base i (i + 1) s) ∷ chain (i + 1) ss

abbrev IsChain : ℕ → List BaseSegment → Type 0
IsChain i [] = Unit
IsChain i (s ∷ ss) = (s.input ≡ some i) × (s.output ≡ some (i + 1)) × IsChain (i + 1) ss

send_self :
    (o : ℕ) (ms : List Flow) (sent : Option ℕ → List Flow)
    → sent (some o) ≡ []
    → send (some o) ms sent (some o) ≡ ms
unfolding send
send_self o ms sent h = ground (arith, h)

send_other :
    (o c : ℕ) (ms : List Flow) (sent : Option ℕ → List Flow)
    → o < c
    → sent (some c) ≡ []
    → send (some o) ms sent (some c) ≡ []
unfolding send
send_other o c ms sent l h = ground (arith, h)

regroup : (a b c ms : List Flow) → Perm (a ++ c) ms → Perm (a ++ (b ++ c)) (ms ++ b)
regroup a b c ms h =
    Perm.trans (Perm.append_left a (perm_append_comm b c))
      (subst (λ l. Perm l (ms ++ b)) (append_assoc a c b) (Perm.append_right b h))

carry-perm :
    (ss : List BaseSegment) (i o : ℕ) (sent : Option ℕ → List Flow) (dropped ms : List Flow)
    → IsChain i ss
    → All Conserving ss
    → o ≡ i + length ss
    → sent (some i) ≡ ms
    → ((j : ℕ) → i < j → sent (some j) ≡ [])
    → let (t, d) = carry ss sent dropped in Perm (t (some o) ++ d) (ms ++ dropped)
unfolding carry
carry-perm [] i o sent dropped ms c h e r n =
    let e' : o ≡ i = omega (arith, e) in rw (e', r) (Perm.refl (ms ++ dropped))
carry-perm (s ∷ ss) i o sent dropped ms (input, output, c) (h, hs) e r n =
    let q : sent s.input ≡ ms = ap sent input ∙ r in
    let m = s.messages s.subscribed (sent s.input) in
    let ih =
      carry-perm ss (i + 1) o (send s.output m.out sent) (dropped ++ m.drops) m.out c hs
        (omega (arith, e)) (rw output (send_self (i + 1) m.out sent (n (i + 1) (omega arith))))
        (λ j l. rw output (send_other (i + 1) j m.out sent l (n j (omega (arith, l))))) in
    subst (λ l. Perm (let (t, d) = carry (s ∷ ss) sent dropped in t (some o) ++ d) (l ++ dropped)) q
      (Perm.trans ih (regroup m.out dropped m.drops (sent s.input) (h (sent s.input))))

chain-IsChain : (i : ℕ) (ss : List BaseSegment) → IsChain i (chain i ss)
unfolding subscribe_base rewire_base
chain-IsChain i [] = tt
chain-IsChain i (s ∷ ss) = (refl, refl, chain-IsChain (i + 1) ss)

length-chain : (i : ℕ) (ss : List BaseSegment) → length (chain i ss) ≡ length ss
length-chain i [] = refl
length-chain i (s ∷ ss) = ap suc (length-chain (i + 1) ss)

-- A segment sends the same flows wherever it stands.
chain-Conserving :
    (i : ℕ) (ss : List BaseSegment)
    → All (λ s. Conserving (subscribe_base s)) ss
    → All Conserving (chain i ss)
unfolding subscribe_base rewire_base
chain-Conserving i [] h = tt
chain-Conserving i (s ∷ ss) (h, hs) = (rewired s h, chain-Conserving (i + 1) ss hs)
  where
    rewired :
        (s : BaseSegment)
        → Conserving (subscribe_base s)
        → Conserving (subscribe_base (rewire_base i (i + 1) s))
    rewired s h ms = h ms

wire-chain :
    (i : ℕ) (ss : List BaseSegment)
    → (wire i (map (λ s. some (single s)) ss) >>= λ l. singles (map subscribe_drops l))
      ≡ some (chain i ss)
unfolding wire singles subscribe_drops rewire
wire-chain i [] = refl
wire-chain i (s ∷ ss) = more (wire (i + 1) (map (λ s. some (single s)) ss)) (wire-chain (i + 1) ss)
  where
    more :
        (result : Option (List Segment))
        → (result >>= λ l. singles (map subscribe_drops l)) ≡ some (chain (i + 1) ss)
        → ((result >>= λ rest. some (rewire i (i + 1) (single s) ∷ rest)) >>= λ l.
            singles (map subscribe_drops l))
          ≡ some (chain i (s ∷ ss))
    more none h = absurd (ground arith)
    more (some l) h =
        ap (λ o. o >>= λ rest. some (subscribe_base (rewire_base i (i + 1) s) ∷ rest)) h

-- The pipeline that `New` makes of such segments, with its `Drop` made by `GetDrop`.
abbrev pub dropping : List BaseSegment → Option Pipeline
dropping ss = new (map (λ s. some (single s)) ss) >>= λ p. some (get_drop p)

length-map : (ss : List BaseSegment) → length (map (λ s. some (single s)) ss) ≡ length ss
length-map [] = refl
length-map (s ∷ ss) = ap suc (length-map ss)

wired-traffic :
    (ss : List BaseSegment) (ms : List Flow)
    → All (λ s. Conserving (subscribe_base s)) ss
    → Returns
        (λ sent. Perm (sent.out ++ sent.drops) ms)
        (wired (map (λ s. some (single s)) ss) >>= λ p. traffic (get_drop p) ms)
unfolding wired get_drop traffic
wired-traffic ss ms h = finish (wire 0 (map (λ s. some (single s)) ss)) (wire-chain 0 ss)
  where
    started : List Segment → Pipeline
    started l = record {
      input = 0;
      output = length (map (λ s. some (single s)) ss);
      has_drop = false;
      segment_list = l;
    }

    finish :
        (result : Option (List Segment))
        → (result >>= λ l. singles (map subscribe_drops l)) ≡ some (chain 0 ss)
        → Returns
            (λ sent. Perm (sent.out ++ sent.drops) ms)
            ((result >>= λ l. some (started l)) >>= λ p. traffic (get_drop p) ms)
    finish none e = absurd (ground arith)
    finish (some l) e = rw e (
        subst
          (λ l.
            Perm
              (let (t, d) = carry (chain 0 ss) (send (some 0) ms (λ c. [])) [] in
                t (some (length (map (λ s. some (single s)) ss))) ++ d)
              l)
          (append-nil ms)
          (carry-perm (chain 0 ss) 0 (length (map (λ s. some (single s)) ss))
            (send (some 0) ms (λ c. [])) [] ms (chain-IsChain 0 ss) (chain-Conserving 0 ss h)
            (omega (arith, length-chain 0 ss, length-map ss)) (send_self 0 ms (λ c. []) refl)
            (λ j l. send_other 0 j ms (λ c. []) l refl)))

-- For any segments that each send on or drop every flow once when their drops are subscribed to
-- if they are filters: `New` gives a pipeline, and after `GetDrop` each flow that is sent into it
-- comes out exactly once, either at its end or on `Drop`.
pub traffic-perm :
    (ss : List BaseSegment) (ms : List Flow)
    → All (λ s. Conserving (subscribe_base s)) ss
    → Returns
        (λ sent. Perm (sent.out ++ sent.drops) ms)
        (new (map (λ s. some (single s)) ss) >>= λ p. traffic (get_drop p) ms)
unfolding new subscribe_base
traffic-perm [] ms h =
    wired-traffic (pass ∷ []) ms
      ((λ l. subst (λ k. Perm k l) (sym (append-nil l)) (Perm.refl l)), tt)
traffic-perm (s ∷ ss) ms h = wired-traffic (s ∷ ss) ms h
