-- ===== src/Indexer/System/Tests.antt =====
-- A run in which a client cancels while the walk is under way, and the walk stops at once.
use longhaul.Base.{String, ◌≡◌, refl, true, false, none, some, [], ◌∷◌}
use longhaul.Base.Dict
use longhaul.Json.{end}
use longhaul.Core.Tasks
use longhaul.Core.Tasks.{Task, TaskStatus, working, cancelled, is_terminal}
use longhaul.Server.Store.Memory
use longhaul.Server.Store.Memory.{MemoryStore, memory_store}
use longhaul.Server.Store.Contract.Histories.{Op, perform}
use longhaul.Server.Store.Refines.{memory_view, memory_store-Implements}
use longhaul.Indexer.{Entry, dir, file, nil, cons, default_result, visit, walk_dir, walk_and_index}
use longhaul.Indexer.Worker.{turn_of, monitor_turn}
use longhaul.Indexer.System.{
  World, walking, result_of, Reach, start, then_step, polls, returns, others, poll,
}
use longhaul.Indexer.System.Invariant.{Inv, Reach-Inv}

abbrev lower : String → String
lower s = s

abbrev tree : Entry
tree = dir (cons (file (record { extension = "md"; text = some (12, 80) })) nil)

abbrev job : Task
job = record { id = "job"; status = working; meta = none; extra = end }

abbrev world : World MemoryStore
world = record {
  state = record { tasks = ("job", job) ∷ []; poisoned = false };
  fired = false;
  monitoring = true;
  worker = walking;
}

-- the client cancels, the monitor fires the channel, and the walk finds it fired at its first reading
cancelled_run :
    (w : World MemoryStore) × Reach memory_store lower tree "job" world w
    × (result_of w.worker ≡ some default_result)
unfolding perform poll monitor_turn turn_of memory_store Memory.get Memory.cancel Dict.get
    Dict.insert is_terminal Tasks.cancel walk_and_index walk_dir visit
cancelled_run = (
  _,
  then_step (then_step (then_step start (others (Op.cancel "job") tt)) (polls refl))
      (returns (λ n. true) (λ n h. refl) (λ n h. refl) refl),
  refl,
)

Reach-Inv_example :
    Inv memory_store lower tree "job" memory_view
      (λ t. t)
      memory_store-Implements
      job
      cancelled_run.0
unfolding Dict.get
Reach-Inv_example =
    Reach-Inv memory_store lower tree "job" memory_view (λ t. t) memory_store-Implements job world
      cancelled_run.0 refl refl refl cancelled_run.1
