-- ===== src/Core/Tasks/Lifecycle.antt =====
-- The life cycle of a task: the legal transitions as a relation, and what sequences of transitions
-- and cancellations do to a task.
use longhaul.Base.{
  ◌≡◌, ◌↔◌, refl, true, false, List, [], ◌∷◌, ◌∙◌, ok, inl, ◌⊎◌, inr, err, Bool-cases, ap, arith,
}
use longhaul.Core.Tasks.{
  TaskStatus, working, input_required, completed, failed, cancelled, is_terminal, can_transition_to,
  Task, transition_to, cancel, now_cancelled, already_terminal, CancelOutcome,
}

-- The arrows of the documented state machine.
infix 40 ◌⟶◌ ◌⟶*◌
pub data ◌⟶◌ : TaskStatus → TaskStatus → Type 0 where
  pause : working ⟶ input_required
  complete : working ⟶ completed
  resume : input_required ⟶ working
  fail_working : working ⟶ failed
  fail_paused : input_required ⟶ failed
  cancel_working : working ⟶ cancelled
  cancel_paused : input_required ⟶ cancelled

pub data ◌⟶*◌ : TaskStatus → TaskStatus → Type 0 where
  here : {s : TaskStatus} → s ⟶* s
  along : {s t u : TaskStatus} → s ⟶ t → t ⟶* u → s ⟶* u

ruleset arrows = (pause, complete, resume, fail_working, fail_paused, cancel_working, cancel_paused)

pub ⟶-of-can_transition_to : (s t : TaskStatus) → can_transition_to s t ≡ true → s ⟶ t
unfolding can_transition_to
⟶-of-can_transition_to working input_required h = pause
⟶-of-can_transition_to working completed h = complete
⟶-of-can_transition_to working failed h = fail_working
⟶-of-can_transition_to working cancelled h = cancel_working
⟶-of-can_transition_to input_required working h = resume
⟶-of-can_transition_to input_required failed h = fail_paused
⟶-of-can_transition_to input_required cancelled h = cancel_paused
⟶-of-can_transition_to _ _ h = cc

pub can_transition_to-of-⟶ : {s t : TaskStatus} → s ⟶ t → can_transition_to s t ≡ true
unfolding can_transition_to
can_transition_to-of-⟶ pause = refl
can_transition_to-of-⟶ complete = refl
can_transition_to-of-⟶ resume = refl
can_transition_to-of-⟶ fail_working = refl
can_transition_to-of-⟶ fail_paused = refl
can_transition_to-of-⟶ cancel_working = refl
can_transition_to-of-⟶ cancel_paused = refl

-- The test of the code passes exactly on the arrows of the documented diagram.
pub can_transition_to_iff : (s t : TaskStatus) → (can_transition_to s t ≡ true) ↔ (s ⟶ t)
can_transition_to_iff s t = (⟶-of-can_transition_to s t, can_transition_to-of-⟶)

-- A status is terminal exactly when no transition out of it passes the test.
pub is_terminal_iff :
    (s : TaskStatus) → (is_terminal s ≡ true) ↔ ((t : TaskStatus) → can_transition_to s t ≡ false)
unfolding is_terminal can_transition_to
is_terminal_iff working = (λ h t. cc, λ h. cc (h completed))
is_terminal_iff input_required = (λ h t. cc, λ h. cc (h failed))
is_terminal_iff _ = (λ h t. refl, λ h. refl)

-- Every live status has a way of legal transitions to every terminal status.
pub live-⟶* : (s t : TaskStatus) → is_terminal s ≡ false → is_terminal t ≡ true → s ⟶* t
unfolding is_terminal
live-⟶* working completed h k = search (here, along, arrows)
live-⟶* working failed h k = search (here, along, arrows)
live-⟶* working cancelled h k = search (here, along, arrows)
live-⟶* input_required completed h k = along resume (along complete here)
live-⟶* input_required failed h k = search (here, along, arrows)
live-⟶* input_required cancelled h k = search (here, along, arrows)
live-⟶* _ _ h k = cc

-- A call on a task: a requested transition or a cancellation.
pub data Call : Type 0 where
  transition : TaskStatus → Call
  stop : Call

unfoldable pub apply : Call → Task → Task
apply (transition next) t = (transition_to next t).1
apply stop t = (cancel t).1

unfoldable pub run : List Call → Task → Task
run [] t = t
run (c ∷ cs) t = run cs (apply c t)

-- `t'` is `t` moved along the diagram: only the status may differ.
pub record Follows (t t' : Task) : Type 0 where
  pub path : t.status ⟶* t'.status
  pub id : t'.id ≡ t.id
  pub meta : t'.meta ≡ t.meta
  pub extra : t'.extra ≡ t.extra

pub Follows-refl : (t : Task) → Follows t t
Follows-refl t = record { path = here; id = refl; meta = refl; extra = refl }

pub set_status-Follows :
    (t : Task) (s : TaskStatus) → t.status ⟶ s → Follows t (record t { status = s })
set_status-Follows t s h = record { path = along h here; id = refl; meta = refl; extra = refl }

pub ⟶*-trans : {s t u : TaskStatus} → s ⟶* t → t ⟶* u → s ⟶* u
⟶*-trans here q = q
⟶*-trans (along a p) q = along a (⟶*-trans p q)

pub Follows-trans : {t u v : Task} → Follows t u → Follows u v → Follows t v
Follows-trans f g = record {
  path = ⟶*-trans f.path g.path;
  id = g.id ∙ f.id;
  meta = g.meta ∙ f.meta;
  extra = g.extra ∙ f.extra;
}

-- A requested transition succeeds exactly along an arrow of the diagram, and then changes the
-- status alone; off the diagram it reports both statuses and leaves the task as it was.
pub transition_to_lem :
    (next : TaskStatus) (t : Task)
    → ((t.status ⟶ next) × (transition_to next t ≡ (ok tt, record t { status = next })))
      ⊎ (¬ (t.status ⟶ next)
          × (transition_to next t ≡ (err (record { from = t.status; to = next }), t)))
unfolding transition_to
transition_to_lem next t = elim (Bool-cases (can_transition_to t.status next)) [
  | inl legal ↦ inl (⟶-of-can_transition_to t.status next legal, rw legal)
  | inr illegal ↦ inr (λ a. cc (can_transition_to-of-⟶ a), rw illegal)
]

pub ⟶-cancelled : (s : TaskStatus) → is_terminal s ≡ false → s ⟶ cancelled
unfolding is_terminal
⟶-cancelled working h = cancel_working
⟶-cancelled input_required h = cancel_paused
⟶-cancelled _ h = cc

cancelled_is_terminal : is_terminal cancelled ≡ true
unfolding is_terminal
cancelled_is_terminal = refl

pub cancel_of_terminal :
    (t : Task) → is_terminal t.status ≡ true → cancel t ≡ (already_terminal t.status, t)
unfolding cancel
cancel_of_terminal t h = rw h

pub cancel_of_live :
    (t : Task)
    → is_terminal t.status ≡ false
    → cancel t ≡ (now_cancelled, record t { status = cancelled })
unfolding cancel
cancel_of_live t h = rw h

-- Cancelling leaves the task in a terminal state: a live task moves to `cancelled` along an arrow
-- and nothing else of it changes, a terminal one is left whole. A second cancellation changes
-- nothing and reports the state that the first one left.
pub cancel_lem :
    (t : Task)
    → let (outcome, t') = cancel t in
      (is_terminal t'.status ≡ true)
      × (((outcome ≡ now_cancelled)
            × (t.status ⟶ cancelled)
            × (t' ≡ record t { status = cancelled }))
          ⊎ ((outcome ≡ already_terminal t.status) × (is_terminal t.status ≡ true) × (t' ≡ t)))
      × (cancel t' ≡ (already_terminal t'.status, t'))
cancel_lem t = elim (Bool-cases (is_terminal t.status)) [
  | inl done ↦
      rw (cancel_of_terminal t done) (done, inr (refl, done, refl), cancel_of_terminal t done)
  | inr live ↦
      let t' : Task = record t { status = cancelled } in
      rw (cancel_of_live t live) (
        cancelled_is_terminal,
        inl (refl, ⟶-cancelled t.status live, refl),
        cancel_of_terminal t' cancelled_is_terminal,
      )
]

pub cancel-Follows : (t : Task) → Follows t (cancel t).1
cancel-Follows t = elim (Bool-cases (is_terminal t.status)) [
  | inl done ↦ rw (cancel_of_terminal t done) (Follows-refl t)
  | inr live ↦
      rw (cancel_of_live t live) (set_status-Follows t cancelled (⟶-cancelled t.status live))
]

apply-Follows : (c : Call) (t : Task) → Follows t (apply c t)
unfolding apply
apply-Follows (transition next) t = elim (transition_to_lem next t) [
  | inl (arrow, e) ↦ rw (e, apply) (set_status-Follows t next arrow)
  | inr (_, e) ↦ rw (e, apply) (Follows-refl t)
]
apply-Follows stop t = cancel-Follows t

-- Whatever transitions are requested and however often it is cancelled, a task moves along the
-- documented diagram, and its id, metadata and extra fields stay.
pub run-Follows : (cs : List Call) (t : Task) → Follows t (run cs t)
unfolding run
run-Follows [] t = Follows-refl t
run-Follows (c ∷ cs) t = Follows-trans (apply-Follows c t) (run-Follows cs (apply c t))

apply_of_terminal : (c : Call) (t : Task) → is_terminal t.status ≡ true → apply c t ≡ t
unfolding apply transition_to cancel
apply_of_terminal (transition next) t h = rw ((is_terminal_iff t.status).0 h next, apply)
apply_of_terminal stop t h = ap (λ (r : CancelOutcome × Task). r.1) (cancel_of_terminal t h)

-- A task in a terminal state is never changed again by any calls.
pub run_of_terminal : (cs : List Call) (t : Task) → is_terminal t.status ≡ true → run cs t ≡ t
unfolding run
run_of_terminal [] t h = refl
run_of_terminal (c ∷ cs) t h = rw (apply_of_terminal c t h) (run_of_terminal cs t h)

⟶*-of_terminal : {s t : TaskStatus} → is_terminal s ≡ true → s ⟶* t → t ≡ s
unfolding is_terminal
⟶*-of_terminal h here = refl
⟶*-of_terminal h (along pause p) = cc
⟶*-of_terminal h (along complete p) = cc
⟶*-of_terminal h (along resume p) = cc
⟶*-of_terminal h (along fail_working p) = cc
⟶*-of_terminal h (along fail_paused p) = cc
⟶*-of_terminal h (along cancel_working p) = cc
⟶*-of_terminal h (along cancel_paused p) = cc

pub Follows-eq_of_terminal : (t t' : Task) → is_terminal t.status ≡ true → Follows t t' → t' ≡ t
Follows-eq_of_terminal t t' h f = ground (arith, ⟶*-of_terminal h f.path, f.id, f.meta, f.extra)
