-- ===== src/Branch.antt =====
-- segments/controlflow/branch/branch.go: the loops between the three embedded pipelines. A select
-- loop is a function of the events in the order in which it receives them: on a channel, a message
-- or the notice that the channel is closed. A field of `Open` is false once the source sets the
-- channel's variable to nil.
pub mod Forward
pub mod Drain
mod Tests
use flowpipeline.Base.{
  Bool, true, false, ◌&&◌, ◌||◌, not, List, [], ◌∷◌, Option, none, some, String, str_eq,
  if◌then◌else◌,
}
use flowpipeline.Flow.{Flow}
use flowpipeline.Segment.{Sent, nothing, forward, discard, and_then}

pub record Branch : Type 0 where
  pub bypass_messages : Bool
  pub subscribed : Bool  -- `segment.Drops != nil`

-- `New`, for the value of `bypass-messages` and the parser `strconv.ParseBool`; an error of it
-- ends the program.
unfoldable pub new : (String → Option Bool) → String → Option Branch
new parse_bool value =
    if str_eq value ""
    then some (record { bypass_messages = false; subscribed = false })
    else elim (parse_bool value) [
      | none ↦ none
      | some b ↦ some (record { bypass_messages = b; subscribed = false })
    ]

-- What `select` receives: `msg, ok := <-channel`, for a channel of the type C.
pub data Event (C : Type 0) : Type 0 where
  message : C → Flow → Event C
  closed : C → Event C

pub data ConditionChannel : Type 0 where
  from_condition_out from_condition_drop : ConditionChannel

-- `forwardBasedOnCondition`: what it sends to the two branches, and the events that it leaves
-- when it returns. The flags say which of its channels are not yet nil.
pub record Forwarded : Type 0 where
  pub to_then : List Flow
  pub to_else : List Flow
  pub unread : List (Event ConditionChannel)

unfoldable pub forward_based_on_condition : Bool → Bool → List (Event ConditionChannel) → Forwarded
forward_based_on_condition out drop [] = record { to_then = []; to_else = []; unread = [] }
forward_based_on_condition out drop (message from_condition_out msg ∷ events) =
    let later = forward_based_on_condition out drop events in
    record later { to_then = msg ∷ later.to_then }
forward_based_on_condition out drop (message from_condition_drop msg ∷ events) =
    let later = forward_based_on_condition out drop events in
    record later { to_else = msg ∷ later.to_else }
forward_based_on_condition out drop (closed from_condition_out ∷ events) =
    let later = forward_based_on_condition false drop events in
    if not drop then record { to_then = []; to_else = []; unread = events } else later
forward_based_on_condition out drop (closed from_condition_drop ∷ events) =
    let later = forward_based_on_condition out false events in
    if not out then record { to_then = []; to_else = []; unread = events } else later

pub data BranchChannel : Type 0 where
  from_then from_else from_then_drop from_else_drop : BranchChannel

pub record Open : Type 0 where
  pub then_open : Bool
  pub else_open : Bool
  pub then_drop_open : Bool
  pub else_drop_open : Bool

abbrev pub all_open : Open
all_open = record {
  then_open = true;
  else_open = true;
  then_drop_open = true;
  else_drop_open = true;
}

unfoldable pub set_nil : BranchChannel → Open → Open
set_nil from_then o = record o { then_open = false }
set_nil from_else o = record o { else_open = false }
set_nil from_then_drop o = record o { then_drop_open = false }
set_nil from_else_drop o = record o { else_drop_open = false }

-- A message that a branch has dropped.
unfoldable pub send_dropped : Branch → Flow → Sent
send_dropped segment msg =
    if segment.bypass_messages then forward msg else discard segment.subscribed msg

-- One pass of the loop of `drainOutput`: a message is sent on, or the channel is set to nil.
unfoldable pub drain_step : Branch → Open → Event BranchChannel → Open × Sent
unfolding send_dropped
drain_step segment o (message from_then msg) = (o, forward msg)
drain_step segment o (message from_else msg) = (o, forward msg)
drain_step segment o (message from_then_drop msg) = (o, send_dropped segment msg)
drain_step segment o (message from_else_drop msg) = (o, send_dropped segment msg)
drain_step segment o (closed c) = (set_nil c o, nothing)

-- The condition at the end of the loop, on which it returns.
unfoldable pub drained : Open → Bool
drained o = not o.then_open || not o.else_open || not o.then_drop_open || not o.else_drop_open

-- What `drainOutput` sends, and the events that it leaves when it returns.
unfoldable pub drain_output :
    Branch → Open → List (Event BranchChannel) → Sent × List (Event BranchChannel)
drain_output segment o [] = (nothing, [])
drain_output segment o (event ∷ events) =
    let (o', sent) = drain_step segment o event in
    let (later, unread) = drain_output segment o' events in
    if drained o' then (sent, events) else (and_then sent later, unread)
