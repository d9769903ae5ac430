-- ===== src/Server/Store/Refines.antt =====
-- The memory store keeps the promises of the trait.
use longhaul.Base.{String, refl, inl, inr, Bool-cases, Option-cases, ◌≡◌}
use longhaul.Base.Dict
use longhaul.Base.Dict.{get-insert}
use longhaul.Core.Tasks.{Task, can_transition_to, transition_to, UpdateTaskParams}
use longhaul.Server.Store.Contract.{
  View, MeetsBehindLock, Answers, Implements, Implements-of_Answers, spec_get, spec_insert,
  spec_update, spec_cancel,
}
use longhaul.Server.Store.Memory.{MemoryStore, get, insert, update, cancel, memory_store}

abbrev pub memory_view : MemoryStore → View
memory_view s k = Dict.get s.tasks k

memory_get :
    (id : String) (s : MemoryStore)
    → MeetsBehindLock memory_view s.poisoned ⊥ s (get id s) (spec_get id (memory_view s))
unfolding get
memory_get id s = elim (Bool-cases s.poisoned) [
  | inl poisoned ↦ rw poisoned (inl (refl, refl))
  | inr clean ↦ rw clean (inr (refl, inl (refl, λ k. refl)))
]

memory_insert :
    (t : Task) (s : MemoryStore)
    → MeetsBehindLock memory_view s.poisoned ⊥ s
        (insert t s)
        (spec_insert (λ u. u) t (memory_view s))
unfolding insert
memory_insert t s = elim (Bool-cases s.poisoned) [
  | inl poisoned ↦ rw poisoned (inl (refl, refl))
  | inr clean ↦ rw clean (inr (refl, inl (refl, λ k. get-insert t.id k t s.tasks)))
]

memory_update :
    (p : UpdateTaskParams) (s : MemoryStore)
    → MeetsBehindLock memory_view s.poisoned ⊥ s (update p s) (spec_update p (memory_view s))
unfolding update transition_to
memory_update p s = elim (Bool-cases s.poisoned) [
  | inl poisoned ↦ rw poisoned (inl (refl, refl))
  | inr clean ↦ rw clean (elim (Option-cases (Dict.get s.tasks p.task_id)) [
    | inl missing ↦ rw missing (inr (refl, inl (refl, λ k. refl)))
    | inr (t, found) ↦ rw found (elim (Bool-cases (can_transition_to t.status p.status)) [
      | inl legal ↦ rw legal (inr (refl, inl (refl, λ k. get-insert p.task_id k _ s.tasks)))
      | inr illegal ↦ rw illegal (inr (refl, inl (refl, λ k. refl)))
    ])
  ])
]

memory_cancel :
    (id : String) (s : MemoryStore)
    → MeetsBehindLock memory_view s.poisoned ⊥ s (cancel id s) (spec_cancel id (memory_view s))
unfolding cancel
memory_cancel id s = elim (Bool-cases s.poisoned) [
  | inl poisoned ↦ rw poisoned (inl (refl, refl))
  | inr clean ↦ rw clean (elim (Option-cases (Dict.get s.tasks id)) [
    | inl missing ↦ rw missing (inr (refl, inl (refl, λ k. refl)))
    | inr (t, found) ↦ rw found (inr (refl, inl (refl, λ k. get-insert id k _ s.tasks)))
  ])
]

get_lock : (id : String) (s : MemoryStore) → (get id s).1.poisoned ≡ s.poisoned
unfolding get
get_lock id s = elim (Bool-cases s.poisoned) [
  | inl poisoned ↦ rw poisoned refl
  | inr clean ↦ rw clean refl
]

insert_lock : (t : Task) (s : MemoryStore) → (insert t s).1.poisoned ≡ s.poisoned
unfolding insert
insert_lock t s = elim (Bool-cases s.poisoned) [
  | inl poisoned ↦ rw poisoned refl
  | inr clean ↦ rw clean refl
]

update_lock : (p : UpdateTaskParams) (s : MemoryStore) → (update p s).1.poisoned ≡ s.poisoned
unfolding update
update_lock p s = elim (Bool-cases s.poisoned) [
  | inl poisoned ↦ rw poisoned refl
  | inr clean ↦ rw clean (elim (Option-cases (Dict.get s.tasks p.task_id)) [
    | inl missing ↦ rw missing refl
    | inr (t, found) ↦ rw found (elim (Bool-cases (can_transition_to t.status p.status)) [
      | inl legal ↦ rw legal refl
      | inr illegal ↦ rw illegal refl
    ])
  ])
]

cancel_lock : (id : String) (s : MemoryStore) → (cancel id s).1.poisoned ≡ s.poisoned
unfolding cancel
cancel_lock id s = elim (Bool-cases s.poisoned) [
  | inl poisoned ↦ rw poisoned refl
  | inr clean ↦ rw clean (elim (Option-cases (Dict.get s.tasks id)) [
    | inl missing ↦ rw missing refl
    | inr (t, found) ↦ rw found refl
  ])
]

-- From every state whose lock is not poisoned, each method of the memory store does what the trait
-- says to the map of whole tasks and answers with what the trait says, never with a fault; where the
-- lock is poisoned, each answers with that and changes nothing. No method poisons the lock.
pub memory_store-Answers :
    Answers memory_view memory_store
      (λ t. t)
      (λ s. s.poisoned)
      (λ _ _. ⊥)
      (λ _ _. ⊥)
      (λ _ _. ⊥)
      (λ _ _. ⊥)
unfolding memory_store
memory_store-Answers = record {
  get_answers = memory_get;
  insert_answers = memory_insert;
  update_answers = memory_update;
  cancel_answers = memory_cancel;
  get_keeps_lock = get_lock;
  insert_keeps_lock = insert_lock;
  update_keeps_lock = update_lock;
  cancel_keeps_lock = cancel_lock;
}

pub memory_store-Implements : Implements memory_view memory_store (λ t. t)
memory_store-Implements =
    Implements-of_Answers memory_view (λ s. s.poisoned) (λ _ _. ⊥) (λ _ _. ⊥) (λ _ _. ⊥) (λ _ _. ⊥)
      memory_store-Answers
