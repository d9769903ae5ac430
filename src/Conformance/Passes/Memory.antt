-- ===== src/Conformance/Passes/Memory.antt =====
-- The memory store works as long as its lock is not poisoned.
use longhaul.Base.{String, ◌≡◌, refl, inl, inr, false, Bool-cases, Option-cases}
use longhaul.Base.Dict
use longhaul.Core.Tasks.{UpdateTaskParams, can_transition_to, transition_to}
use longhaul.Server.Store.Contract.{IsFault}
use longhaul.Server.Store.Memory
use longhaul.Server.Store.Memory.{MemoryStore, memory_store}
use longhaul.Conformance.Passes.{Works}

abbrev pub IsClean : MemoryStore → Type 0
IsClean s = s.poisoned ≡ false

get_works :
    (id : String) (s : MemoryStore)
    → IsClean s
    → ¬ (IsFault (Memory.get id s).0) × IsClean (Memory.get id s).1
unfolding Memory.get
get_works id s clean = elim (Option-cases (Dict.get s.tasks id)) [
  | inl gone ↦ rw (clean, gone) (λ h. h, refl)
  | inr (t, found) ↦ rw (clean, found) (λ h. h, refl)
]

update_works :
    (p : UpdateTaskParams) (s : MemoryStore)
    → IsClean s
    → ¬ (IsFault (Memory.update p s).0) × IsClean (Memory.update p s).1
unfolding Memory.update transition_to
update_works p s clean = elim (Option-cases (Dict.get s.tasks p.task_id)) [
  | inl gone ↦ rw (clean, gone) (λ h. h, refl)
  | inr (t, found) ↦ elim (Bool-cases (can_transition_to t.status p.status)) [
    | inl legal ↦ rw (clean, found, legal) (λ h. h, refl)
    | inr illegal ↦ rw (clean, found, illegal) (λ h. h, refl)
  ]
]

cancel_works :
    (id : String) (s : MemoryStore)
    → IsClean s
    → ¬ (IsFault (Memory.cancel id s).0) × IsClean (Memory.cancel id s).1
unfolding Memory.cancel
cancel_works id s clean = elim (Option-cases (Dict.get s.tasks id)) [
  | inl gone ↦ rw (clean, gone) (λ h. h, refl)
  | inr (t, found) ↦ rw (clean, found) (λ h. h, refl)
]

pub memory_store-Works : Works memory_store IsClean
unfolding memory_store
memory_store-Works = record {
  get_works = get_works;
  update_works = update_works;
  cancel_works = cancel_works;
}
