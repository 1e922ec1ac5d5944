-- ===== src/StateMachine/Tests.antt =====
-- Orders that take a few events.
use conn.Common.{◌≡◌, refl, [], ◌∷◌}
use conn.StateMachine.{
  submit, fill, ParentState, ChildState, start, step, run, child_step, child_next, parent_next,
}

-- A fill right behind the acknowledgement leaves the child new.
fill_at_once :
    run start (submit ∷ fill ∷ [])
    ≡ record { state = ParentState.filled; child_order = ChildState.new }
unfolding run step child_step child_next parent_next
fill_at_once = refl
