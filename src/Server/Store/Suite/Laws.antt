-- ===== src/Server/Store/Suite/Laws.antt =====
-- The test programs over any store that keeps the contract: what their steps do, and how they end.
use longhaul.Base.{String, ◌≡◌, refl, ◌∙◌, true, false, none, some, arith, eq_refl}
use mathlib.Core.Path.{subst}
use longhaul.Base.Exec.{Exec, ◌>>=◌}
use longhaul.Core.Tasks.{
  Task, TaskStatus, working, input_required, completed, failed, cancelled, UpdateTaskParams, new,
  can_transition_to, transition_to, is_terminal,
}
use longhaul.Core.Tasks
use longhaul.Server.Store.{not_found, illegal_transition, TaskStore}
use longhaul.Server.Store.Contract.{View, Meets, Implements, write}
use longhaul.Server.Store.Suite.{
  Panic, update, is_illegal, is_missing, unwrap, fails_with, assert_status, moves_to, cancels,
  shows, lifecycle_test, illegal_transition_test, cancel_test, not_found_test,
  insert_or_replace_test,
}
use longhaul.Server.Store.Suite.Endings.{
  Ends, Passes, same_status_refl, bind-Ends, then_Passes, Ends-Passes, forget, unwrap-Ends,
  fails_with-Ends,
}

cancel_of_working : (t : Task) → t.status ≡ working → (Tasks.cancel t).1.status ≡ cancelled
unfolding Tasks.cancel is_terminal
cancel_of_working t h = rw h refl

cancel_of_cancelled : (t : Task) → t.status ≡ cancelled → (Tasks.cancel t).1.status ≡ cancelled
unfolding Tasks.cancel is_terminal
cancel_of_cancelled t h = ground (arith, h)

module _ {S : Type 0} (view : S → View) (store : TaskStore S) (keep : Task → Task)
    (impl : Implements view store keep) (kept : (t : Task) → (keep t).status ≡ t.status) where
  -- the store shows a task of this status under `id`
  abbrev Shows : String → TaskStatus → S → Type 0
  Shows id status s = (t : Task) × (view s id ≡ some t) × (t.status ≡ status)

  insert-Ends :
      (id : String) (s : S) → Ends (λ _ s'. Shows id working s') (unwrap (store.insert (new id)) s)
  unfolding new
  insert-Ends id s =
      unwrap-Ends view (store.insert (new id) s) tt _ (λ _ s'. Shows id working s')
        (impl.insert_meets (new id) s)
        (λ s' same. (keep (new id), same id ∙ rw (eq_refl id) refl, kept (new id)))

  abbrev Agrees : String → TaskStatus → Task → S → Type 0
  Agrees id status t s = (t.status ≡ status) × Shows id status s

  get-Ends :
      (id : String) (st : TaskStatus) (s : S)
      → Shows id st s
      → Ends (Agrees id st) (unwrap (store.get id) s)
  get-Ends id st s (t, here, h) =
      unwrap-Ends view (store.get id s) t (view s) (Agrees id st)
        (subst (λ r. Meets view s (store.get id s) r) (rw here refl) (impl.get_meets id s))
        (λ s' same. (h, (t, same id ∙ here, h)))

  update-Ends :
      (id : String) (st next : TaskStatus) (s : S)
      → can_transition_to st next ≡ true
      → Shows id st s
      → Ends (Agrees id next) (unwrap (store.update (update id next)) s)
  unfolding transition_to
  update-Ends id st next s legal (t, here, h) =
      let p = update id next in
      let t' : Task = record t { status = next } in
      unwrap-Ends view (store.update p s) t' (write id t' (view s)) (Agrees id next)
        (subst (λ r. Meets view s (store.update p s) r) (rw (here, h, legal) refl)
          (impl.update_meets p s))
        (λ s' same. (refl, (t', same id ∙ rw (eq_refl id) refl, refl)))

  cancel-Ends :
      (id : String) (st : TaskStatus) (s : S)
      → ((t : Task) → t.status ≡ st → (Tasks.cancel t).1.status ≡ cancelled)
      → Shows id st s
      → Ends (Agrees id cancelled) (unwrap (store.cancel id) s)
  cancel-Ends id st s stops (t, here, h) =
      let t' = (Tasks.cancel t).1 in
      unwrap-Ends view (store.cancel id s) t' (write id t' (view s)) (Agrees id cancelled)
        (subst (λ r. Meets view s (store.cancel id s) r) (rw here refl) (impl.cancel_meets id s))
        (λ s' same. (stops t h, (t', same id ∙ rw (eq_refl id) refl, stops t h)))

  assert-Ends :
      (id : String) (st : TaskStatus) (m : Exec S Panic Task) (s : S)
      → Ends (Agrees id st) (m s)
      → Ends (λ _ s'. Shows id st s') ((m >>= λ t. assert_status t st) s)
  assert-Ends id st m s h =
      bind-Ends (Agrees id st) (λ _ s'. Shows id st s') m (λ t. assert_status t st) s h
        (λ t s' (q, here). rw (q, same_status_refl st) here)

  illegal-Ends :
      (id : String) (st next : TaskStatus) (s : S)
      → can_transition_to st next ≡ false
      → Shows id st s
      → Passes (fails_with is_illegal (store.update (update id next)) s)
  unfolding transition_to
  illegal-Ends id st next s illegal (t, here, h) =
      let p = update id next in
      fails_with-Ends view is_illegal (store.update p s) (illegal_transition st next) (view s)
        (λ _ _. Unit) (refl, λ m. refl) refl
        (subst (λ r. Meets view s (store.update p s) r) (rw (here, h, illegal) refl)
          (impl.update_meets p s))
        (λ _ _. tt)

  missing-get-Ends :
      (id : String) (s : S)
      → view s id ≡ none
      → Ends (λ _ s'. view s' id ≡ none) (fails_with is_missing (store.get id) s)
  missing-get-Ends id s h =
      fails_with-Ends view is_missing (store.get id s) (not_found id) (view s)
        (λ _ s'. view s' id ≡ none) (refl, λ m. refl) refl
        (subst (λ r. Meets view s (store.get id s) r) (rw h refl) (impl.get_meets id s))
        (λ s' same. same id ∙ h)

  missing-cancel-Ends :
      (id : String) (s : S) → view s id ≡ none → Passes (fails_with is_missing (store.cancel id) s)
  missing-cancel-Ends id s h =
      fails_with-Ends view is_missing (store.cancel id s) (not_found id) (view s) (λ _ _. Unit)
        (refl, λ m. refl) refl
        (subst (λ r. Meets view s (store.cancel id s) r) (rw h refl) (impl.cancel_meets id s))
        (λ _ _. tt)

  shows-Ends :
      (id : String) (st : TaskStatus) (s : S)
      → Shows id st s
      → Ends (λ _ s'. Shows id st s') (shows store id st s)
  shows-Ends id st s h = assert-Ends id st (unwrap (store.get id)) s (get-Ends id st s h)

  moves_to-Ends :
      (id : String) (st next : TaskStatus) (s : S)
      → can_transition_to st next ≡ true
      → Shows id st s
      → Ends (λ _ s'. Shows id next s') (moves_to store id next s)
  moves_to-Ends id st next s legal h =
      assert-Ends id next (unwrap (store.update (update id next))) s
        (update-Ends id st next s legal h)

  cancels-Ends :
      (id : String) (st : TaskStatus) (s : S)
      → ((t : Task) → t.status ≡ st → (Tasks.cancel t).1.status ≡ cancelled)
      → Shows id st s
      → Ends (λ _ s'. Shows id cancelled s') (cancels store id s)
  cancels-Ends id st s stops h =
      assert-Ends id cancelled (unwrap (store.cancel id)) s (cancel-Ends id st s stops h)

  completes-Ends :
      (id : String) (s : S)
      → Shows id working s
      → Ends (λ _ s'. Shows id completed s') (unwrap (store.update (update id completed)) s)
  unfolding can_transition_to
  completes-Ends id s h =
      forget (λ (t : Task) _. t.status ≡ completed) (Shows id completed)
        (unwrap (store.update (update id completed)) s) (update-Ends id working completed s refl h)

  lifecycle_test-Passes : (s : S) → Passes (lifecycle_test store s)
  unfolding lifecycle_test can_transition_to
  lifecycle_test-Passes s =
      then_Passes (Shows "t1" working) (unwrap (store.insert (new "t1"))) _ s (insert-Ends "t1" s)
        (λ s₁ h₁.
          then_Passes (Shows "t1" working) (shows store "t1" working) _ s₁
            (shows-Ends "t1" working s₁ h₁)
            (λ s₂ h₂.
              then_Passes (Shows "t1" input_required) (moves_to store "t1" input_required) _ s₂
                (moves_to-Ends "t1" working input_required s₂ refl h₂)
                (λ s₃ h₃.
                  then_Passes (Shows "t1" working) (moves_to store "t1" working) _ s₃
                    (moves_to-Ends "t1" input_required working s₃ refl h₃)
                    (λ s₄ h₄.
                      Ends-Passes (Shows "t1" completed) (moves_to store "t1" completed s₄)
                        (moves_to-Ends "t1" working completed s₄ refl h₄)))))

  illegal_transition_test-Passes : (s : S) → Passes (illegal_transition_test store s)
  unfolding illegal_transition_test can_transition_to
  illegal_transition_test-Passes s =
      then_Passes (Shows "t2" working) (unwrap (store.insert (new "t2"))) _ s (insert-Ends "t2" s)
        (λ s₁ h₁.
          then_Passes (Shows "t2" completed) (unwrap (store.update (update "t2" completed))) _ s₁
            (completes-Ends "t2" s₁ h₁) (λ s₂ h₂. illegal-Ends "t2" completed working s₂ refl h₂))

  cancel_test-Passes : (s : S) → Passes (cancel_test store s)
  unfolding cancel_test
  cancel_test-Passes s =
      then_Passes (Shows "t3" working) (unwrap (store.insert (new "t3"))) _ s (insert-Ends "t3" s)
        (λ s₁ h₁.
          then_Passes (Shows "t3" cancelled) (cancels store "t3") _ s₁
            (cancels-Ends "t3" working s₁ cancel_of_working h₁)
            (λ s₂ h₂.
              Ends-Passes (Shows "t3" cancelled) (cancels store "t3" s₂)
                (cancels-Ends "t3" cancelled s₂ cancel_of_cancelled h₂)))

  not_found_test-Passes : (s : S) → view s "no-such" ≡ none → Passes (not_found_test store s)
  unfolding not_found_test
  not_found_test-Passes s h =
      bind-Ends (λ _ s'. view s' "no-such" ≡ none) (λ _ _. Unit)
        (fails_with is_missing (store.get "no-such"))
        (λ _. fails_with is_missing (store.cancel "no-such")) s (missing-get-Ends "no-such" s h)
        (λ _ s' h'. missing-cancel-Ends "no-such" s' h')

  insert_or_replace_test-Passes : (s : S) → Passes (insert_or_replace_test store s)
  unfolding insert_or_replace_test
  insert_or_replace_test-Passes s =
      then_Passes (Shows "dup" working) (unwrap (store.insert (new "dup"))) _ s
        (insert-Ends "dup" s)
        (λ s₁ h₁.
          then_Passes (Shows "dup" completed) (unwrap (store.update (update "dup" completed))) _ s₁
            (completes-Ends "dup" s₁ h₁)
            (λ s₂ h₂.
              then_Passes (Shows "dup" working) (unwrap (store.insert (new "dup"))) _ s₂
                (insert-Ends "dup" s₂)
                (λ s₃ h₃.
                  Ends-Passes (Shows "dup" working) (shows store "dup" working s₃)
                    (shows-Ends "dup" working s₃ h₃))))

  -- Over any store that keeps the contract and the status of what is inserted, and in any state that
  -- does not show the id "no-such", each of the five test programs of the repository passes all its
  -- assertions, or panics because the store reported a fault.
  pub suite-Passes :
      (s : S)
      → view s "no-such" ≡ none
      → Passes (lifecycle_test store s)
        × Passes (illegal_transition_test store s)
        × Passes (cancel_test store s)
        × Passes (not_found_test store s)
        × Passes (insert_or_replace_test store s)
  suite-Passes s h = (
    lifecycle_test-Passes s,
    illegal_transition_test-Passes s,
    cancel_test-Passes s,
    not_found_test-Passes s h,
    insert_or_replace_test-Passes s,
  )
