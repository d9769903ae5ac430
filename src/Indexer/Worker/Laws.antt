-- ===== src/Indexer/Worker/Laws.antt =====
-- What the worker leaves in a store that keeps its contract, and when the monitor ends.
use longhaul.Base.{
  ℕ, zero, suc, String, ◌≡◌, refl, ap, ◌∙◌, ◌⊎◌, inl, inr, Bool, true, false, some, arith,
  if◌then◌else◌, Bool-cases, Option-cases, Result, ok, err, ok_or,
}
use longhaul.Core.Tasks.{
  Task, TaskStatus, completed, failed, cancelled, is_terminal, can_transition_to,
}
use longhaul.Server.Store.{StoreError, TaskStore, not_found}
use longhaul.Server.Store.Contract.{View, Implements, IsFault}
use longhaul.Indexer.{IndexResult}
use longhaul.Indexer.Worker.{
  Turn, fire, leave, again, fire, leave, again, is_cancelled, turn_of, Monitor, stopped,
  monitor_loop, polled,
}

is_cancelled_lem : (s : TaskStatus) → is_cancelled s ≡ true → s ≡ cancelled
is_cancelled_lem cancelled h = refl
is_cancelled_lem _ h = cc

turn_cases : (t : Turn) → (t ≡ fire) ⊎ ((t ≡ leave) ⊎ (t ≡ again))
turn_cases fire = inl refl
turn_cases leave = inr (inl refl)
turn_cases again = inr (inr refl)

module _ {S : Type 0} (view : S → View) (store : TaskStore S) (keep : Task → Task)
    (impl : Implements view store keep) where
  pub get-view : (id : String) (s : S) (k : String) → view (store.get id s).1 k ≡ view s k
  get-view id s k = elim (impl.get_meets id s) [ inl (_, same) ↦ same k | inr (_, same) ↦ same k ]

  -- what a read answers where the task is shown
  pub get_of_shown :
      (id : String) (s : S) (t : Task)
      → view s id ≡ some t
      → ((store.get id s).0 ≡ ok t) ⊎ IsFault (store.get id s).0
  get_of_shown id s t h = elim (impl.get_meets id s) [
    | inl (q, _) ↦ inl (q ∙ ap (λ o. ok_or o (not_found id)) h)
    | inr (f, _) ↦ inr f
  ]

  -- what an answer tells of the map
  pub shown_of_get :
      (id : String) (s : S) (t : Task) → (store.get id s).0 ≡ ok t → view s id ≡ some t
  shown_of_get id s t h = elim (impl.get_meets id s) [
    | inl (q, _) ↦ elim (Option-cases (view s id)) [
      | inl e ↦ cc (rw e at q)
      | inr (u, e) ↦ ground (arith, rw e at q)
    ]
    | inr (f, _) ↦ absurd (rw h at f)
  ]

  -- where an update that the life cycle may refuse leaves a task
  abbrev pub moved_to : TaskStatus → Task → Task
  moved_to next t = if can_transition_to t.status next then record t { status = next } else t

  Settled : String → TaskStatus → Task → S → Result Task StoreError × S → Type 0
  Settled id next t s (r, s') =
      (view s' id ≡ some (moved_to next t)) ⊎ (IsFault r × (view s' id ≡ some t))

  abbrev pub final : Result IndexResult String → TaskStatus
  final (ok r) = completed
  final (err e) = failed

  -- the state of the store in which the worker makes its update: after its look at the task, if the
  -- walk has returned
  abbrev pub updated_at : String → Result IndexResult String → S → S
  updated_at id (ok r) s = (store.get id s).1
  updated_at id (err e) s = s

  -- The monitor has nothing left to wait for: the task is terminal, or gone, or the store faults.
  abbrev pub IsOver : String → S → Type 0
  IsOver id s = ((t : Task) → (store.get id s).0 ≡ ok t → is_terminal t.status ≡ true)

  turn_of_over :
      (r : Result Task StoreError)
      → ((t : Task) → r ≡ ok t → is_terminal t.status ≡ true)
      → (turn_of r ≡ fire) ⊎ (turn_of r ≡ leave)
  unfolding turn_of
  turn_of_over (ok t) h = rw (h t refl) (elim (Bool-cases (is_cancelled t.status)) [
    | inl c ↦ inl (rw c refl)
    | inr n ↦ inr (rw n refl)
  ])
  turn_of_over (err e) h = inr refl

  pub turn_of_fire :
      (r : Result Task StoreError)
      → turn_of r ≡ fire
      → (t : Task) × (r ≡ ok t) × (t.status ≡ cancelled)
  unfolding turn_of is_terminal
  turn_of_fire (ok t) h = (t, refl, is_cancelled_lem t.status (ground arith))
  turn_of_fire (err e) h = cc

  fired :
      (id : String) (s : S)
      → turn_of (store.get id s).0 ≡ fire
      → (b : Bool) × (s' : S) × (◌≡◌ {A = Monitor store id}
          (stopped true (store.get id s).1)
          (stopped b s'))
        × (b ≡ true → (t : Task) × (view s' id ≡ some t) × (t.status ≡ cancelled))
  fired id s f =
      let (t, answer, c) = turn_of_fire (store.get id s).0 f in
      (true, (store.get id s).1, refl, λ _. (t, get-view id s id ∙ shown_of_get id s t answer, c))

  -- The monitor ends at the latest in the turn in which it finds the task over, so that many turns
  -- of fuel are enough; and if it ends by firing the channel, the task is cancelled.
  pub monitor_loop-ends :
      (id : String) (others : ℕ → S → S) (k n : ℕ) (s : S)
      → IsOver id (polled store id others k n s)
      → (b : Bool) × (s' : S) × (monitor_loop store id others (suc k) n s ≡ stopped b s')
        × (b ≡ true → (t : Task) × (view s' id ≡ some t) × (t.status ≡ cancelled))
  unfolding monitor_loop polled
  monitor_loop-ends id others zero n s over =
      let r : Result Task StoreError = (store.get id (others n s)).0 in
      elim (turn_of_over r over) [
        | inl f ↦ rw (f, monitor_loop) (fired id (others n s) f)
        | inr l ↦ rw (l, monitor_loop) (false, (store.get id (others n s)).1, refl, λ h. cc)
      ]
  monitor_loop-ends id others (suc k) n s over =
      let r : Result Task StoreError = (store.get id (others n s)).0 in
      elim (turn_cases (turn_of r)) [
        | inl f ↦ rw (f, monitor_loop) (fired id (others n s) f)
        | inr (inl l) ↦ rw (l, monitor_loop) (false, (store.get id (others n s)).1, refl, λ h. cc)
        | inr (inr a) ↦
            rw (a, monitor_loop)
              (monitor_loop-ends id others k (suc n) (store.get id (others n s)).1 over)
      ]
