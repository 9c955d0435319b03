-- ===== src/Branch/Drain.antt =====
-- What the segment sends on from its branches.
use mathlib.Core.List.{Perm, perm_middle}
use mathlib.Core.List.Perm
use flowpipeline.Base.{
  Bool, true, false, ◌||◌, List, [], ◌∷◌, ◌++◌, ◌≡◌, refl, arith, if◌then◌else◌, Bool-cases, inl,
  inr,
}
use flowpipeline.Flow.{Flow}
use flowpipeline.Segment.{Sent, nothing, forward, discard, and_then}
use flowpipeline.Branch.{
  Branch, Event, message, closed, BranchChannel, from_then, from_else, from_then_drop,
  from_else_drop, all_open, set_nil, send_dropped, drain_step, drained, drain_output,
}

-- Messages on the four channels, with no notice that one is closed.
abbrev pub messages : List (BranchChannel × Flow) → List (Event BranchChannel)
messages [] = []
messages ((c, msg) ∷ ms) = message c msg ∷ messages ms

abbrev pub passed : Branch → BranchChannel → Bool
passed segment from_then = true
passed segment from_else = true
passed segment from_then_drop = segment.bypass_messages
passed segment from_else_drop = segment.bypass_messages

-- What the loop is to send for the messages.
unfoldable pub sent_for : Branch → List (BranchChannel × Flow) → Sent
sent_for segment [] = nothing
sent_for segment ((c, msg) ∷ ms) =
    and_then (if passed segment c then forward msg else discard segment.subscribed msg)
      (sent_for segment ms)

abbrev pub flows : List (BranchChannel × Flow) → List Flow
flows [] = []
flows ((c, msg) ∷ ms) = msg ∷ flows ms

-- The loop sends each message on, those of the branches' outputs and, if messages bypass, those
-- of their drops on `Out` and the others on `Drops`; and as soon as one of the four channels is
-- closed it returns, with whatever the others still send unread.
pub drain_output_lem :
    (segment : Branch) (ms : List (BranchChannel × Flow)) (c : BranchChannel)
    (later : List (Event BranchChannel))
    → drain_output segment all_open (messages ms ++ (closed c ∷ later))
      ≡ (sent_for segment ms, later)
unfolding drain_output drain_step drained set_nil sent_for send_dropped
drain_output_lem segment [] from_then later = refl
drain_output_lem segment [] from_else later = refl
drain_output_lem segment [] from_then_drop later = refl
drain_output_lem segment [] from_else_drop later = refl
drain_output_lem segment ((from_then, msg) ∷ ms) c later =
    rw (drain_output_lem segment ms c later) refl
drain_output_lem segment ((from_else, msg) ∷ ms) c later =
    rw (drain_output_lem segment ms c later) refl
drain_output_lem segment ((from_then_drop, msg) ∷ ms) c later =
    rw (drain_output_lem segment ms c later) refl
drain_output_lem segment ((from_else_drop, msg) ∷ ms) c later =
    rw (drain_output_lem segment ms c later) refl

sent_for-perm :
    (segment : Branch) (ms : List (BranchChannel × Flow))
    → (segment.bypass_messages || segment.subscribed) ≡ true
    → let sent = sent_for segment ms in Perm (sent.out ++ sent.drops) (flows ms)
unfolding sent_for
sent_for-perm segment [] h = Perm.refl []
sent_for-perm segment ((c, msg) ∷ ms) h =
    let ih = sent_for-perm segment ms h in
    let later = sent_for segment ms in
    elim (Bool-cases (passed segment c)) [
      | inl e ↦ rw e (Perm.cons msg ih)
      | inr e ↦
          rw (e, subscribed c e) (Perm.trans (perm_middle later.out later.drops) (Perm.cons msg ih))
    ]
  where
    subscribed : (c : BranchChannel) → passed segment c ≡ false → segment.subscribed ≡ true
    subscribed from_then e = ground arith
    subscribed from_else e = ground arith
    subscribed from_then_drop e = ground arith
    subscribed from_else_drop e = ground arith

-- If messages bypass, or the drops of the segment are subscribed to, then the loop sends each
-- message that it receives before a channel is closed exactly once.
pub drain_output-perm :
    (segment : Branch) (ms : List (BranchChannel × Flow)) (c : BranchChannel)
    (later : List (Event BranchChannel))
    → (segment.bypass_messages || segment.subscribed) ≡ true
    → let sent = (drain_output segment all_open (messages ms ++ (closed c ∷ later))).0 in
      Perm (sent.out ++ sent.drops) (flows ms)
drain_output-perm segment ms c later h =
    rw (drain_output_lem segment ms c later) (sent_for-perm segment ms h)
