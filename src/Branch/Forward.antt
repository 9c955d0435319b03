-- ===== src/Branch/Forward.antt =====
-- What the branches of a condition receive.
use flowpipeline.Base.{Bool, true, false, List, [], ◌∷◌, ◌≡◌, refl, arith}
use flowpipeline.Flow.{Flow}
use flowpipeline.Branch.{
  Event, message, closed, ConditionChannel, from_condition_out, from_condition_drop,
  forward_based_on_condition,
}

-- The messages of one channel, in order.
unfoldable pub messages_out : List (Event ConditionChannel) → List Flow
messages_out [] = []
messages_out (message from_condition_out msg ∷ events) = msg ∷ messages_out events
messages_out (message from_condition_drop msg ∷ events) = messages_out events
messages_out (closed c ∷ events) = messages_out events

unfoldable pub messages_drop : List (Event ConditionChannel) → List Flow
messages_drop [] = []
messages_drop (message from_condition_out msg ∷ events) = messages_drop events
messages_drop (message from_condition_drop msg ∷ events) = msg ∷ messages_drop events
messages_drop (closed c ∷ events) = messages_drop events

-- The events of two channels that are open as the flags say: a channel sends messages while it is
-- open, and is closed once.
unfoldable pub IsHistory : Bool → Bool → List (Event ConditionChannel) → Type 0
IsHistory out drop [] = (out ≡ false) × (drop ≡ false)
IsHistory out drop (message from_condition_out msg ∷ events) =
    (out ≡ true) × IsHistory out drop events
IsHistory out drop (message from_condition_drop msg ∷ events) =
    (drop ≡ true) × IsHistory out drop events
IsHistory out drop (closed from_condition_out ∷ events) = (out ≡ true) × IsHistory false drop events
IsHistory out drop (closed from_condition_drop ∷ events) =
    (drop ≡ true) × IsHistory out false events

IsHistory-empty : (es : List (Event ConditionChannel)) → IsHistory false false es → es ≡ []
unfolding IsHistory
IsHistory-empty [] h = refl
IsHistory-empty (message from_condition_out msg ∷ es) h = ground arith
IsHistory-empty (message from_condition_drop msg ∷ es) h = ground arith
IsHistory-empty (closed from_condition_out ∷ es) h = ground arith
IsHistory-empty (closed from_condition_drop ∷ es) h = ground arith

-- Over two channels that send any messages, interleaved in any way, and are then closed, the loop
-- sends each message of the condition's output to the branch `then`, each of its drops to the
-- branch `else`, in order, and leaves nothing unread.
pub forward_based_on_condition_lem :
    (out drop : Bool) (events : List (Event ConditionChannel))
    → IsHistory out drop events
    → forward_based_on_condition out drop events
      ≡ record { to_then = messages_out events; to_else = messages_drop events; unread = [] }
unfolding forward_based_on_condition messages_out messages_drop IsHistory
forward_based_on_condition_lem out drop [] h = refl
forward_based_on_condition_lem out drop (message from_condition_out msg ∷ events) h =
    rw (forward_based_on_condition_lem out drop events h.1) refl
forward_based_on_condition_lem out drop (message from_condition_drop msg ∷ events) h =
    rw (forward_based_on_condition_lem out drop events h.1) refl
forward_based_on_condition_lem out true (closed from_condition_out ∷ events) h =
    forward_based_on_condition_lem false true events h.1
forward_based_on_condition_lem out false (closed from_condition_out ∷ events) h =
    rw (IsHistory-empty events h.1) refl
forward_based_on_condition_lem true drop (closed from_condition_drop ∷ events) h =
    forward_based_on_condition_lem true false events h.1
forward_based_on_condition_lem false drop (closed from_condition_drop ∷ events) h =
    rw (IsHistory-empty events h.1) refl
