-- ===== src/Core/Tasks/Suite.antt =====
-- longhaul-core/src/tasks.rs, the module `tests`, as far as it does not read or print JSON: each
-- test says whether all its assertions hold.
pub mod Exhaustive
mod Tests
use longhaul.Base.{
  ◌-◌, Bool, true, false, not, ◌&&◌, ◌||◌, List, [], ◌∷◌, if◌then◌else◌, Result, ok, err,
}
use longhaul.Core.Tasks.{
  TaskStatus, working, input_required, completed, failed, cancelled, all_statuses, same_status,
  is_terminal, can_transition_to, InvalidTransition, Task, new, transition_to, cancel,
  CancelOutcome, now_cancelled, already_terminal,
}

-- `LEGAL`
abbrev pub legal : List (TaskStatus × TaskStatus)
legal =
    (working, input_required)
    ∷ (working, completed)
    ∷ (working, failed)
    ∷ (working, cancelled)
    ∷ (input_required, working)
    ∷ (input_required, failed)
    ∷ (input_required, cancelled)
    ∷ []

-- `contains` on a slice of pairs
pub contains : List (TaskStatus × TaskStatus) → TaskStatus → TaskStatus → Bool
contains [] s t = false
contains ((s', t') ∷ pairs) s t = (same_status s s' && same_status t t') || contains pairs s t

-- a `for` loop of assertions
abbrev pub every : {A : Type 0} → (A → Bool) → List A → Bool
every p [] = true
every p (x ∷ xs) = p x && every p xs

abbrev pub same : Bool → Bool → Bool
same b c = if b then c else not c

-- The test is written for any function in the place of `can_transition_to`.
unfoldable pub transition_matrix : (TaskStatus → TaskStatus → Bool) → Bool
unfolding contains
transition_matrix can =
    every (λ from. every (λ to. same (can from to) (contains legal from to)) all_statuses)
      all_statuses

unfoldable pub terminal_states_are_absorbing : Bool
unfolding is_terminal can_transition_to
terminal_states_are_absorbing =
    every (λ from. is_terminal from && every (λ to. not (can_transition_to from to)) all_statuses)
      (completed ∷ failed ∷ cancelled ∷ [])
    && not (is_terminal working)
    && not (is_terminal input_required)

unfoldable pub same_state_is_not_a_transition : Bool
unfolding can_transition_to
same_state_is_not_a_transition = every (λ s. not (can_transition_to s s)) all_statuses

-- `transition_to(…).unwrap()` does not panic, or does not give the error of this move.
abbrev moved : Result (Unit {0}) InvalidTransition → Bool
moved (ok _) = true
moved (err e) = false

abbrev refused : TaskStatus → TaskStatus → Result (Unit {0}) InvalidTransition → Bool
refused from to (ok _) = false
refused from to (err e) = same_status e.from from && same_status e.to to

unfoldable pub transition_to_test : Bool
unfolding new transition_to
transition_to_test =
    let (r₁, task₁) = transition_to input_required (new "task-1") in
    let (r₂, task₂) = transition_to working task₁ in
    let (r₃, task₃) = transition_to completed task₂ in
    let (r₄, task₄) = transition_to working task₃ in
    let (r₅, paused₁) = transition_to input_required (new "task-2") in
    let (r₆, paused₂) = transition_to completed paused₁ in
    moved r₁
    && same_status task₁.status input_required
    && moved r₂
    && moved r₃
    && same_status task₃.status completed
    && refused completed working r₄
    && same_status task₄.status completed
    && moved r₅
    && not (moved r₆)
    && same_status paused₂.status input_required

abbrev same_outcome : CancelOutcome → CancelOutcome → Bool
same_outcome now_cancelled now_cancelled = true
same_outcome (already_terminal s) (already_terminal t) = same_status s t
same_outcome _ _ = false

unfoldable pub cancel_test : Bool
unfolding new transition_to cancel
cancel_test =
    let (o₁, task₁) = cancel (new "t") in
    let (o₂, task₂) = cancel task₁ in
    let (r₁, done₁) = transition_to completed (new "t2") in
    let (o₃, done₂) = cancel done₁ in
    let (r₂, paused₁) = transition_to input_required (new "t3") in
    let (o₄, paused₂) = cancel paused₁ in
    same_outcome o₁ now_cancelled
    && same_status task₁.status cancelled
    && same_outcome o₂ (already_terminal cancelled)
    && same_status task₂.status cancelled
    && moved r₁
    && same_outcome o₃ (already_terminal completed)
    && same_status done₂.status completed
    && moved r₂
    && same_outcome o₄ now_cancelled
    && same_status paused₂.status cancelled
