-- ===== src/Server/Store/Tests.antt =====
-- Concrete runs of the stores.
use longhaul.Base.{◌≡◌, refl, ◌↔◌, false, none, some, List, [], ◌∷◌, arith, eq_iff}
use longhaul.Base.Dict
use longhaul.Core.Tasks
use longhaul.Core.Tasks.{
  can_transition_to, Task, TaskStatus, working, input_required, completed, cancelled, new, as_str,
  is_terminal, UpdateTaskParams,
}
use longhaul.Core.Tasks.Lifecycle.{◌⟶◌, ◌⟶*◌, Follows}
use longhaul.Server.Store.{new_with_status}
use longhaul.Server.Store.Status.{parse_status, parse_status_iff}
use longhaul.Server.Store.Memory.{MemoryStore, memory_store}
use longhaul.Server.Store.Refines.{memory_view, memory_store-Implements}
use longhaul.Server.Store.Contract.{Answers}
use longhaul.Server.Store.Contract.Histories.{Op, perform_all, perform_all-Progressed}
use longhaul.Server.Store.Sqlite.{Store, sqlite_store, read_task, update_write, cancel_write}
use longhaul.Server.Store.Sqlite.Reading.{sqlite_view, ReadFails}
use longhaul.Server.Store.Sqlite.Rows.{rows}
use longhaul.Server.Store.Sqlite.Unlocked.{stripped, UpdateFails, CancelFails, InsertFails}
use longhaul.Server.Store.Sqlite.Implements.{sqlite_store-Answers}
use longhaul.Server.Store.Race.{
  cancel_race, World, idle, Interleaving, start, then_step, read_found, write, Interleaving-⟶*,
}

abbrev job : Task
job = new "job"

abbrev finish : UpdateTaskParams
finish = record { task_id = "job"; status = completed; meta = none }

abbrev shelf : MemoryStore
shelf = record { tasks = ("job", job) ∷ []; poisoned = false }

abbrev ops : List Op
ops = Op.update finish ∷ Op.cancel "job" ∷ Op.get "other" ∷ Op.insert (new "other") ∷ []

perform_all-Progressed_example :
    (t' : Task) × (memory_view (perform_all memory_store ops shelf) "job" ≡ some t')
    × Follows job t'
unfolding Dict.get new
perform_all-Progressed_example =
    perform_all-Progressed memory_view memory_store (λ t. t) memory_store-Implements "job" job ops
      shelf (tt, (tt, (tt, (λ h. cc ((eq_iff "other" "job").1 h), tt)))) refl

sqlite_store-Answers_example :
    Answers
      (sqlite_view rows)
      (sqlite_store rows)
      stripped
      (λ s. s.poisoned)
      (ReadFails rows)
      (CancelFails rows)
      (InsertFails rows)
      (UpdateFails rows)
sqlite_store-Answers_example = sqlite_store-Answers rows

abbrev file : Store rows
file = record { db = ("job", "working") ∷ []; poisoned = false }

cancel_race_example :
    (completed ≡ completed)
    × (Dict.get (update_write rows finish job file).1.db "job" ≡ some (as_str completed))
    × (Dict.get (cancel_write rows "job" job (update_write rows finish job file).1).1.db "job"
        ≡ some (as_str cancelled))
    × ¬ (completed ⟶ cancelled)
unfolding Dict.get Dict.insert is_terminal update_write cancel_write new as_str new_with_status
    can_transition_to Tasks.cancel
cancel_race_example =
    cancel_race rows finish job job (new_with_status "job" completed)
      (record job { status = cancelled }) file refl refl refl refl

abbrev world : World rows
world = record { file = ("job", "working") ∷ []; phase = λ i. idle }

-- one thread reads the task and then writes its update
finished_world : (w : World rows) × Interleaving rows world w
unfolding read_task Dict.get parse_status new_with_status new
finished_world = (
  _,
  then_step (then_step start (read_found 0 finish job refl refl))
      (write 0 finish job (ground arith)),
)

Interleaving-⟶*_example :
    (st' : TaskStatus) × (Dict.get finished_world.0.file "job" ≡ some (as_str st'))
    × (working ⟶* st')
unfolding finished_world as_str Dict.get
Interleaving-⟶*_example = Interleaving-⟶* rows finished_world.1 "job" working refl

parse_status_iff_example :
    (parse_status "inputRequired" ≡ some input_required) ↔ ("inputRequired" ≡ as_str input_required)
parse_status_iff_example = parse_status_iff "inputRequired" input_required
