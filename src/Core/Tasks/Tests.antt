-- ===== src/Core/Tasks/Tests.antt =====
-- Concrete runs of the task life cycle.
use longhaul.Base.{◌≡◌, refl, ◌⊎◌, true, List, [], ◌∷◌, ok, err}
use longhaul.Core.Tasks.{
  working, input_required, completed, cancelled, is_terminal, can_transition_to, transition_to,
  cancel, Task, new, now_cancelled, already_terminal,
}
use longhaul.Core.Tasks.Lifecycle.{
  ◌⟶◌, Call, transition, stop, run, Follows, run-Follows, transition_to_lem, cancel_lem, apply,
}

abbrev job : Task
job = new "job"

abbrev done : Task
done = record job { status = completed }

-- a pause, an illegal completion, a resumption, a completion and a late cancellation
abbrev calls : List Call
calls =
    transition input_required
    ∷ transition completed
    ∷ transition working
    ∷ transition completed
    ∷ stop
    ∷ []

run-calls : run calls job ≡ done
unfolding run apply can_transition_to new is_terminal transition_to cancel
run-calls = refl

run-Follows_example : Follows job (run calls job)
run-Follows_example = run-Follows calls job

transition_to_lem_example :
    ((input_required ⟶ completed)
      × (transition_to completed (record job { status = input_required }) ≡ (ok tt, done)))
    ⊎ (¬ (input_required ⟶ completed)
        × (transition_to completed (record job { status = input_required }) ≡ (
          err (record { from = input_required; to = completed }),
          record job { status = input_required },
        )))
transition_to_lem_example = transition_to_lem completed (record job { status = input_required })

cancel_lem_example :
    let (outcome, t') = cancel job in
    (is_terminal t'.status ≡ true)
    × (((outcome ≡ now_cancelled)
          × (job.status ⟶ cancelled)
          × (t' ≡ record job { status = cancelled }))
        ⊎ ((outcome ≡ already_terminal job.status) × (is_terminal job.status ≡ true) × (t' ≡ job)))
    × (cancel t' ≡ (already_terminal t'.status, t'))
cancel_lem_example = cancel_lem job
