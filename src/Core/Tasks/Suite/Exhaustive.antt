-- ===== src/Core/Tasks/Suite/Exhaustive.antt =====
-- The matrix test decides the life cycle.
use longhaul.Base.{◌≡◌, refl, sym, ap, ◌∙◌, fun_ext, ◌↔◌, Bool, true, false, arith}
use longhaul.Core.Tasks.{
  TaskStatus, working, input_required, completed, failed, cancelled, all_statuses,
  can_transition_to,
}
use longhaul.Core.Tasks.Lifecycle.{◌⟶◌, can_transition_to_iff}
use longhaul.Core.Tasks.Suite.{every, same, legal, contains, transition_matrix}

every_statuses :
    (p : TaskStatus → Bool) → every p all_statuses ≡ true → (s : TaskStatus) → p s ≡ true
every_statuses p h working = ground (arith, h)
every_statuses p h input_required = ground (arith, h)
every_statuses p h completed = ground (arith, h)
every_statuses p h failed = ground (arith, h)
every_statuses p h cancelled = ground (arith, h)

same_lem : (b c : Bool) → same b c ≡ true → b ≡ c
same_lem true c h = sym h
same_lem false true h = cc
same_lem false false h = refl

contains-legal : (s t : TaskStatus) → contains legal s t ≡ can_transition_to s t
unfolding contains can_transition_to
contains-legal working working = refl
contains-legal working input_required = refl
contains-legal working completed = refl
contains-legal working failed = refl
contains-legal working cancelled = refl
contains-legal input_required working = refl
contains-legal input_required input_required = refl
contains-legal input_required completed = refl
contains-legal input_required failed = refl
contains-legal input_required cancelled = refl
contains-legal completed _ = refl
contains-legal failed _ = refl
contains-legal cancelled _ = refl

can_transition_to-passes : transition_matrix can_transition_to ≡ true
unfolding transition_matrix contains can_transition_to
can_transition_to-passes = refl

transition_matrix-eq :
    (can : TaskStatus → TaskStatus → Bool) (s t : TaskStatus)
    → transition_matrix can ≡ true
    → can s t ≡ can_transition_to s t
unfolding transition_matrix
transition_matrix-eq can s t h =
    let row : TaskStatus → TaskStatus → Bool = λ s t. same (can s t) (contains legal s t) in
    let at_s = every_statuses (λ from. every (row from) all_statuses) h s in
    same_lem (can s t) (contains legal s t) (every_statuses (row s) at_s t) ∙ contains-legal s t

same_of_iff : (b c : Bool) → ((b ≡ true) ↔ (c ≡ true)) → b ≡ c
same_of_iff true c (f, g) = sym (f refl)
same_of_iff false true (f, g) = g refl
same_of_iff false false (f, g) = refl

-- The matrix test of the repository is complete: any function in the place of
-- `TaskStatus::can_transition_to` passes it exactly if it allows the moves of the documented diagram
-- and no other.
pub transition_matrix_iff :
    (can : TaskStatus → TaskStatus → Bool)
    → (transition_matrix can ≡ true) ↔ ((s t : TaskStatus) → (can s t ≡ true) ↔ (s ⟶ t))
transition_matrix_iff can = (
  λ h s t. rw (transition_matrix-eq can s t h) (can_transition_to_iff s t),
  λ h.
      let same_moves : (s t : TaskStatus) → can s t ≡ can_transition_to s t = λ s t.
        let (c, c') = can_transition_to_iff s t in
        same_of_iff (can s t) (can_transition_to s t)
          (λ e. c' ((h s t).0 e), λ e. (h s t).1 (c e)) in
      ap transition_matrix (fun_ext (λ s. fun_ext (λ t. same_moves s t)))
      ∙ can_transition_to-passes,
)
