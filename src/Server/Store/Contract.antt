-- ===== src/Server/Store/Contract.antt =====
-- What the trait `TaskStore` promises: the store shows a map from ids to tasks, and each method does
-- to the map what the documentation of the trait says, by the life cycle of `Task` itself. A store
-- may also fault, by a poisoned lock or an error of the database, and then shows the same map.
pub mod Histories
use longhaul.Base.{
  ℕ, zero, suc, ◌+◌, ◌-◌, ◌*◌, ◌%◌, ◌^◌, ◌≤◌, ◌<◌, max, String, ◌≡◌, refl, sym, ap, ◌∙◌, fun_ext,
  ◌≢◌, ◌↔◌, ◌⊎◌, inl, inr, Bool, true, false, not, ◌&&◌, ◌||◌, Option, none, some, List, [], ◌∷◌,
  ◌++◌, map, arith, eq_iff, eq_refl, ltb, leb, if◌then◌else◌, ◌<>◌, ◌==◌, Bool-cases, Option-cases,
  some_injective, length, Result, ok, err, ok_or, map_err, and_then, map_ok, Result-cases,
  ok_injective,
}
use mathlib.Core.Path.{subst}
use longhaul.Core.Tasks.{TaskStatus, InvalidTransition, Task, transition_to, UpdateTaskParams}
use longhaul.Core.Tasks
use longhaul.Server.Store.{
  StoreError, not_found, illegal_transition, sqlite, lock_poisoned, TaskStore,
}

abbrev pub View : Type 0
View = String → Option Task

-- the map with one entry written
abbrev pub write : String → Task → View → View
write k t v j = if k == j then some t else v j

abbrev pub spec_get : String → View → Result Task StoreError × View
spec_get id v = (ok_or (v id) (not_found id), v)

-- `keep` is what the store keeps of a task.
abbrev pub spec_insert : (Task → Task) → Task → View → Result (Unit {0}) StoreError × View
spec_insert keep t v = (ok tt, write t.id (keep t) v)

-- the outcome of `Task::transition_to`, as the store reports it
abbrev pub moved :
    String → View → Result (Unit {0}) InvalidTransition × Task → Result Task StoreError × View
moved id v (ok _, t) = (ok t, write id t v)
moved id v (err e, t) = (err (illegal_transition e.from e.to), v)

abbrev pub spec_update_at : UpdateTaskParams → View → Option Task → Result Task StoreError × View
spec_update_at p v none = (err (not_found p.task_id), v)
spec_update_at p v (some t) = moved p.task_id v (transition_to p.status t)

abbrev pub spec_update : UpdateTaskParams → View → Result Task StoreError × View
spec_update p v = spec_update_at p v (v p.task_id)

abbrev pub spec_cancel_at : String → View → Option Task → Result Task StoreError × View
spec_cancel_at id v none = (err (not_found id), v)
spec_cancel_at id v (some t) = let t' = (Tasks.cancel t).1 in (ok t', write id t' v)

abbrev pub spec_cancel : String → View → Result Task StoreError × View
spec_cancel id v = spec_cancel_at id v (v id)

abbrev pub IsFault : {A : Type 0} → Result A StoreError → Type 0
IsFault (err lock_poisoned) = Unit
IsFault (err (sqlite e)) = Unit
IsFault _ = ⊥

module _ {S : Type 0} (view : S → View) where
  -- A method that was run in `s` and answered `r` in `s'` did what the map's operation does, or
  -- faulted and left the map as it was.
  abbrev pub Meets :
      {A : Type 0} → S → Result A StoreError × S → Result A StoreError × View → Type 0
  Meets s (r, s') (r₀, v₀) =
      ((r ≡ r₀) × ((k : String) → view s' k ≡ v₀ k))
      ⊎ (IsFault r × ((k : String) → view s' k ≡ view s k))

  pub record Implements (store : TaskStore S) (keep : Task → Task) : Type 0 where
    pub get_meets : (id : String) (s : S) → Meets s (store.get id s) (spec_get id (view s))
    pub insert_meets : (t : Task) (s : S) → Meets s (store.insert t s) (spec_insert keep t (view s))
    pub update_meets :
        (p : UpdateTaskParams) (s : S) → Meets s (store.update p s) (spec_update p (view s))
    pub cancel_meets : (id : String) (s : S) → Meets s (store.cancel id s) (spec_cancel id (view s))

  -- The method did what the map's operation does; or it faulted for the given cause and left the map
  -- as it was.
  abbrev pub MeetsUnless :
      {A : Type 0} → Type 0 → S → Result A StoreError × S → Result A StoreError × View → Type 0
  MeetsUnless cause s (r, s') (r₀, v₀) =
      ((r ≡ r₀) × ((k : String) → view s' k ≡ v₀ k))
      ⊎ (cause × IsFault r × ((k : String) → view s' k ≡ view s k))

  -- the same behind a lock: exactly when the lock is poisoned, that is the answer and nothing is run
  abbrev pub MeetsBehindLock :
      {A : Type 0}
      → Bool
      → Type 0
      → S
      → Result A StoreError × S
      → Result A StoreError × View
      → Type 0
  MeetsBehindLock poisoned cause s r spec =
      ((poisoned ≡ true) × (r ≡ (err lock_poisoned, s)))
      ⊎ ((poisoned ≡ false) × MeetsUnless cause s r spec)

  Meets-of_behind_lock :
      {A : Type 0} (poisoned : Bool) (cause : Type 0) (s : S) (r : Result A StoreError × S)
      (spec : Result A StoreError × View)
      → MeetsBehindLock poisoned cause s r spec
      → Meets s r spec
  Meets-of_behind_lock poisoned cause s r spec (inl (_, q)) =
      subst (λ x. Meets s x spec) (sym q) (inr (tt, λ k. refl))
  Meets-of_behind_lock poisoned cause s r spec (inr (_, inl m)) = inl m
  Meets-of_behind_lock poisoned cause s r spec (inr (_, inr (_, f, same))) = inr (f, same)

  -- Each method of a store behind a lock does exactly what the map's operation does, but for the
  -- causes of its own faults, and leaves the lock as it is.
  pub record Answers (store : TaskStore S) (keep : Task → Task) (poisoned : S → Bool)
      (get_fails cancel_fails : String → S → Type 0) (insert_fails : Task → S → Type 0)
      (update_fails : UpdateTaskParams → S → Type 0) : Type 0 where
    pub get_answers :
        (id : String) (s : S)
        → MeetsBehindLock (poisoned s) (get_fails id s) s (store.get id s) (spec_get id (view s))
    pub insert_answers :
        (t : Task) (s : S)
        → MeetsBehindLock
            (poisoned s)
            (insert_fails t s)
            s
            (store.insert t s)
            (spec_insert keep t (view s))
    pub update_answers :
        (p : UpdateTaskParams) (s : S)
        → MeetsBehindLock
            (poisoned s)
            (update_fails p s)
            s
            (store.update p s)
            (spec_update p (view s))
    pub cancel_answers :
        (id : String) (s : S)
        → MeetsBehindLock
            (poisoned s)
            (cancel_fails id s)
            s
            (store.cancel id s)
            (spec_cancel id (view s))
    pub get_keeps_lock : (id : String) (s : S) → poisoned (store.get id s).1 ≡ poisoned s
    pub insert_keeps_lock : (t : Task) (s : S) → poisoned (store.insert t s).1 ≡ poisoned s
    pub update_keeps_lock :
        (p : UpdateTaskParams) (s : S) → poisoned (store.update p s).1 ≡ poisoned s
    pub cancel_keeps_lock : (id : String) (s : S) → poisoned (store.cancel id s).1 ≡ poisoned s

  pub Implements-of_Answers :
      {store : TaskStore S} {keep : Task → Task} (poisoned : S → Bool)
      (get_fails cancel_fails : String → S → Type 0) (insert_fails : Task → S → Type 0)
      (update_fails : UpdateTaskParams → S → Type 0)
      → Answers store keep poisoned get_fails cancel_fails insert_fails update_fails
      → Implements store keep
  Implements-of_Answers poisoned get_fails cancel_fails insert_fails update_fails a = record {
    get_meets =
        λ id s. Meets-of_behind_lock (poisoned s) (get_fails id s) s _ _ (a.get_answers id s);
    insert_meets =
        λ t s. Meets-of_behind_lock (poisoned s) (insert_fails t s) s _ _ (a.insert_answers t s);
    update_meets =
        λ p s. Meets-of_behind_lock (poisoned s) (update_fails p s) s _ _ (a.update_answers p s);
    cancel_meets =
        λ id s. Meets-of_behind_lock (poisoned s) (cancel_fails id s) s _ _ (a.cancel_answers id s);
  }
