-- ===== src/Core/Tasks/Suite/Tests.antt =====
-- The tests of longhaul-core/src/tasks.rs pass.
use longhaul.Base.{◌≡◌, refl, ◌↔◌, true}
use longhaul.Core.Tasks.{TaskStatus, is_terminal, can_transition_to, new, transition_to, cancel}
use longhaul.Core.Tasks.Lifecycle.{◌⟶◌}
use longhaul.Core.Tasks.Suite.{
  transition_matrix, terminal_states_are_absorbing, same_state_is_not_a_transition,
  transition_to_test, cancel_test,
}
use longhaul.Core.Tasks.Suite.Exhaustive.{transition_matrix_iff}

transition_matrix_iff_example :
    (transition_matrix can_transition_to ≡ true)
    ↔ ((s t : TaskStatus) → (can_transition_to s t ≡ true) ↔ (s ⟶ t))
transition_matrix_iff_example = transition_matrix_iff can_transition_to

terminal_states_pass : terminal_states_are_absorbing ≡ true
unfolding terminal_states_are_absorbing is_terminal can_transition_to
terminal_states_pass = refl

same_state_passes : same_state_is_not_a_transition ≡ true
unfolding same_state_is_not_a_transition can_transition_to
same_state_passes = refl

transition_to_passes : transition_to_test ≡ true
unfolding transition_to_test new transition_to can_transition_to
transition_to_passes = refl

cancel_passes : cancel_test ≡ true
unfolding cancel_test new transition_to can_transition_to cancel is_terminal
cancel_passes = refl
