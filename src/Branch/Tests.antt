-- ===== src/Branch/Tests.antt =====
-- The loops of a branch at concrete inputs.
use flowpipeline.Base.{true, false, List, [], ◌∷◌, ◌++◌, ◌≡◌, arith}
use flowpipeline.Flow.{Flow, empty_flow}
use flowpipeline.Branch.{
  Branch, Event, message, closed, ConditionChannel, from_condition_out, from_condition_drop,
  forward_based_on_condition, BranchChannel, from_then, from_else, from_then_drop, all_open,
  drain_output,
}
use flowpipeline.Branch.Forward.{
  messages_out, messages_drop, IsHistory, forward_based_on_condition_lem,
}
use flowpipeline.Branch.Drain.{messages, sent_for, drain_output_lem}

abbrev small : Flow
small = record empty_flow { bytes = 1 }

abbrev large : Flow
large = record empty_flow { bytes = 1000 }

abbrev history : List (Event ConditionChannel)
history =
    message from_condition_out large
    ∷ message from_condition_drop small
    ∷ closed from_condition_drop
    ∷ message from_condition_out small
    ∷ closed from_condition_out
    ∷ []

history-IsHistory : IsHistory true true history
unfolding IsHistory
history-IsHistory = ground arith

forward_based_on_condition_lem_example :
    forward_based_on_condition true true history
    ≡ record { to_then = messages_out history; to_else = messages_drop history; unread = [] }
forward_based_on_condition_lem_example =
    forward_based_on_condition_lem true true history history-IsHistory

-- Drops are subscribed to, and messages do not bypass.
abbrev segment : Branch
segment = record { bypass_messages = false; subscribed = true }

abbrev received : List (BranchChannel × Flow)
received = (from_then, large) ∷ (from_then_drop, small) ∷ (from_else, small) ∷ []

-- The branch `then` is closed first, and what the branch `else` sends after that is not read.
drain_output_lem_example :
    drain_output segment all_open
      (messages received ++ (closed from_then ∷ message from_else large ∷ []))
    ≡ (sent_for segment received, message from_else large ∷ [])
drain_output_lem_example =
    drain_output_lem segment received from_then (message from_else large ∷ [])
