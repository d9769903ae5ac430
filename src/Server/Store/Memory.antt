-- ===== src/Server/Store/Memory.antt =====
-- longhaul-server/src/store.rs: `MemoryStore`, a mutex round a map. A method runs under the lock,
-- so it is one step on the map; `poisoned` is the mutex's flag, which another thread may have set.
use longhaul.Base.{String, Bool, false, not, [], if◌then◌else◌, ok, err, ok_or}
use longhaul.Base.Dict
use longhaul.Base.Dict.{Dict}
use longhaul.Base.Exec.{Exec, pure, raise, ◌>>=◌, ◌>>◌}
use longhaul.Core.Tasks.{Task, UpdateTaskParams, can_transition_to}
use longhaul.Core.Tasks
use longhaul.Server.Store.{StoreError, not_found, illegal_transition, lock_poisoned, TaskStore}

pub record MemoryStore : Type 0 where
  pub tasks : Dict Task
  pub poisoned : Bool

unfoldable pub new : MemoryStore
new = record { tasks = []; poisoned = false }

-- `self.inner.lock().map_err(|_| StoreError::LockPoisoned)?`
abbrev pub lock : Exec MemoryStore StoreError (Unit {0})
lock s = if s.poisoned then (err lock_poisoned, s) else (ok tt, s)

-- `guard.get(task_id)` and `guard.get_mut(task_id)`, with `ok_or_else`
abbrev pub find : String → Exec MemoryStore StoreError Task
find task_id s = (ok_or (Dict.get s.tasks task_id) (not_found task_id), s)

-- a write through the reference that `get_mut` gave
abbrev pub put : String → Task → Exec MemoryStore StoreError (Unit {0})
put task_id task s = (ok tt, record s { tasks = Dict.insert task_id task s.tasks })

unfoldable pub get : String → Exec MemoryStore StoreError Task
get task_id = do lock; find task_id

unfoldable pub insert : Task → Exec MemoryStore StoreError (Unit {0})
insert task = do lock; put task.id task

unfoldable pub update : UpdateTaskParams → Exec MemoryStore StoreError Task
update params = do
  lock
  task ← find params.task_id
  if not (can_transition_to task.status params.status)
      then raise (illegal_transition task.status params.status)
      else do
        put params.task_id (record task { status = params.status })
        pure (record task { status = params.status })

-- both outcomes of `task.cancel()` return the task
unfoldable pub cancel : String → Exec MemoryStore StoreError Task
cancel task_id = do
  lock
  task ← find task_id
  let task' = (Tasks.cancel task).1
  put task_id task'
  pure task'

unfoldable pub memory_store : TaskStore MemoryStore
memory_store = record { get = get; insert = insert; update = update; cancel = cancel }
