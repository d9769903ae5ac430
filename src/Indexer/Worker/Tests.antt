-- ===== src/Indexer/Worker/Tests.antt =====
-- A monitor whose task is cancelled in its second sleep, and a worker that comes too late.
use longhaul.Base.{ℕ, zero, suc, ◌≡◌, refl, Bool, true, false, none, some, [], ◌∷◌, ok_injective}
use longhaul.Base.Dict
use mathlib.Core.Path.{subst}
use longhaul.Core.Tasks
use longhaul.Core.Tasks.{Task, TaskStatus, working, cancelled, new, is_terminal, can_transition_to}
use longhaul.Json.{end}
use longhaul.Server.Store.Memory
use longhaul.Server.Store.Memory.{MemoryStore, memory_store}
use longhaul.Server.Store.Refines.{memory_view, memory_store-Implements}
use longhaul.Indexer.Worker.{turn_of, monitor_turn, stopped, monitor_loop, polled}
use longhaul.Indexer.Worker.Laws.{IsOver, monitor_loop-ends}

abbrev job : Task
job = record { id = "job"; status = working; meta = none; extra = end }

abbrev shelf : MemoryStore
shelf = record { tasks = ("job", job) ∷ []; poisoned = false }

-- nothing happens in the first sleep, and the client cancels in every later one
abbrev others : ℕ → MemoryStore → MemoryStore
others zero s = s
others (suc n) s = (Memory.cancel "job" s).1

cancelled_then :
    IsOver memory_view memory_store
      (λ t. t)
      memory_store-Implements
      "job"
      (polled memory_store "job" others 1 0 shelf)
unfolding polled monitor_turn turn_of memory_store Memory.get Memory.cancel Dict.get Dict.insert
    is_terminal Tasks.cancel
cancelled_then t h = subst (λ (u : Task). is_terminal u.status ≡ true) (ok_injective h) refl

monitor_loop-ends_example :
    (b : Bool) × (s : MemoryStore) × (monitor_loop memory_store "job" others 2 0 shelf
      ≡ stopped b s)
    × (b ≡ true → (t : Task) × (Dict.get s.tasks "job" ≡ some t) × (t.status ≡ cancelled))
monitor_loop-ends_example =
    monitor_loop-ends memory_view memory_store (λ t. t) memory_store-Implements "job" others 1 0
      shelf cancelled_then
