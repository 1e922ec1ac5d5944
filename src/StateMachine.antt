-- ===== src/StateMachine.antt =====
-- engine/sm/StateMachine.h: the states of a parent order, and of the child order that it holds.
mod Tests
use conn.Common.{◌≡◌, refl, List, [], ◌∷◌, Option, none, some}

pub data Event : Type 0 where
  submit partial_fill fill cancel : Event

-- The states of both machines; a child order has no `pending`.
pub data ChildState : Type 0 where
  new partially_filled filled cancelled : ChildState

pub data ParentState : Type 0 where
  new pending partially_filled filled cancelled : ParentState

-- The row of the transition table that an event selects: the next state, if there is one. An event
-- without a row changes nothing.
pub child_next : ChildState → Event → Option ChildState
child_next ChildState.new partial_fill = some ChildState.partially_filled
child_next ChildState.partially_filled fill = some ChildState.filled
child_next ChildState.new cancel = some ChildState.cancelled
child_next _ _ = none

pub parent_next : ParentState → Event → Option ParentState
parent_next ParentState.new submit = some ParentState.pending
parent_next ParentState.pending partial_fill = some ParentState.partially_filled
parent_next ParentState.partially_filled fill = some ParentState.filled
parent_next ParentState.pending fill = some ParentState.filled
parent_next ParentState.new cancel = some ParentState.cancelled
parent_next _ _ = none

abbrev or_stay {ℓ} : {A : Type ℓ} → A → Option A → A
or_stay s none = s
or_stay s (some t) = t

-- `ChildOrderStateMachine::process_event`
unfoldable pub child_step : ChildState → Event → ChildState
unfolding child_next
child_step s e = or_stay s (child_next s e)

pub record ParentOrder : Type 0 where
  pub state : ParentState
  pub child_order : ChildState

abbrev pub start : ParentOrder
start = record { state = ParentState.new; child_order = ChildState.new }

-- The actions `sprint_pf`, `sprint_f` and `sprint_c` pass the event on to the child order;
-- `sprint_ack` only prints.
abbrev pub act : Event → ChildState → ChildState
act submit c = c
act e c = child_step c e

abbrev pub take_row : ParentOrder → Event → Option ParentState → ParentOrder
take_row p e none = p
take_row p e (some s) = record { state = s; child_order = act e p.child_order }

-- `ParentOrderStateMachine::process_event`: the action runs, and then the state changes.
unfoldable pub step : ParentOrder → Event → ParentOrder
unfolding parent_next
step p e = take_row p e (parent_next p.state e)

unfoldable pub run : ParentOrder → List Event → ParentOrder
run p [] = p
run p (e ∷ es) = run (step p e) es

-- What a parent order and its child come to. A partially filled order waits for the rest to be filled,
-- whatever else comes.
abbrev pub partly_filled_after : List Event → ParentOrder
partly_filled_after [] = record {
  state = ParentState.partially_filled;
  child_order = ChildState.partially_filled;
}
partly_filled_after (fill ∷ es) = record {
  state = ParentState.filled;
  child_order = ChildState.filled;
}
partly_filled_after (_ ∷ es) = partly_filled_after es

-- One that was acknowledged waits for a fill, whole or in part, and no longer for a cancel; the child
-- makes nothing of a fill that is whole at once, and stays new.
abbrev pub acked_after : List Event → ParentOrder
acked_after [] = record { state = ParentState.pending; child_order = ChildState.new }
acked_after (partial_fill ∷ es) = partly_filled_after es
acked_after (fill ∷ es) = record { state = ParentState.filled; child_order = ChildState.new }
acked_after (_ ∷ es) = acked_after es

-- A new one waits to be submitted or cancelled.
abbrev pub new_after : List Event → ParentOrder
new_after [] = record { state = ParentState.new; child_order = ChildState.new }
new_after (submit ∷ es) = acked_after es
new_after (cancel ∷ es) = record {
  state = ParentState.cancelled;
  child_order = ChildState.cancelled;
}
new_after (_ ∷ es) = new_after es

abbrev pub IsFinal : ParentState → Type 0
IsFinal filled = Unit {0}
IsFinal cancelled = Unit {0}
IsFinal _ = ⊥

parent_next-final : (s : ParentState) (e : Event) → IsFinal s → parent_next s e ≡ none
unfolding parent_next
parent_next-final filled e k = refl
parent_next-final cancelled e k = refl
parent_next-final new e k = absurd k
parent_next-final pending e k = absurd k
parent_next-final partially_filled e k = absurd k

-- A parent order that is filled or cancelled, and its child, stay as they are whatever events come.
pub run-final : (es : List Event) (p : ParentOrder) → IsFinal p.state → run p es ≡ p
unfolding run step
run-final [] p k = refl
run-final (e ∷ es) p k = rw (parent_next-final p.state e k) (run-final es p k)
