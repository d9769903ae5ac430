-- ===== src/Server/Store/Sqlite.antt =====
-- longhaul-server/src/store.rs: `SqliteStore`, each method with its SQL statements in order. A
-- statement runs under the connection's mutex; between two statements another connection to the
-- same file may write, which is the subject of `Race`.
pub mod Statements
pub mod Rows
pub mod Reading
pub mod Writing
pub mod Unlocked
pub mod Implements
pub mod Lock
use longhaul.Base.{
  ℕ, zero, suc, String, Bool, not, if◌then◌else◌, Result, ok, err, ok_or, map_err, map_ok,
}
use longhaul.Base.Exec.{Exec, pure, raise, lift, ◌>>=◌, ◌>>◌}
use longhaul.Core.Tasks.{
  Task, TaskStatus, as_str, UpdateTaskParams, can_transition_to, CancelOutcome, now_cancelled,
  already_terminal,
}
use longhaul.Core.Tasks
use longhaul.Server.Store.{
  SqliteError, query_returned_no_rows, invalid_column_name, engine, StoreError, not_found,
  illegal_transition, sqlite, lock_poisoned, TaskStore, new_with_status,
}
use longhaul.Server.Store.Status.{parse_status}
use longhaul.Server.Store.Sqlite.Statements.{Engine}

-- One instance of the store: its mutex's flag, and the database file that it has open.
pub record SqliteStore (Db : Type 0) : Type 0 where
  pub db : Db
  pub poisoned : Bool

module _ (e : Engine) where
  open e use {Db, select_row, insert_or_replace, update_if, set_cancelled}

  abbrev pub Store : Type 0
  Store = SqliteStore Db

  -- `self.conn.lock().map_err(|_| StoreError::LockPoisoned)?`
  abbrev pub lock : Exec Store StoreError (Unit {0})
  lock s = if s.poisoned then (err lock_poisoned, s) else (ok tt, s)

  -- one statement; `f` turns the engine's error into the store's
  abbrev pub statement :
      {A : Type 0} → (SqliteError → StoreError) → Exec Db SqliteError A → Exec Store StoreError A
  statement f m s = let (r, d) = m s.db in (map_err f r, record s { db = d })

  -- the closure of `map_err` in `read_task`
  abbrev pub read_error : String → SqliteError → StoreError
  read_error task_id query_returned_no_rows = not_found task_id
  read_error task_id (invalid_column_name c) = sqlite (invalid_column_name c)
  read_error task_id (engine m) = sqlite (engine m)

  -- the closure of `and_then` in `read_task`
  abbrev pub read_row : String × String → Result Task StoreError
  read_row (id, status_str) =
      map_ok (new_with_status id)
        (ok_or (parse_status status_str) (sqlite (invalid_column_name status_str)))

  unfoldable pub read_task : String → Exec Store StoreError Task
  read_task task_id = do
    row ← statement (read_error task_id) (select_row task_id)
    lift (read_row row)

  unfoldable pub get : String → Exec Store StoreError Task
  unfolding read_task
  get task_id = do lock; read_task task_id

  unfoldable pub insert : Task → Exec Store StoreError (Unit {0})
  unfolding as_str
  insert task = do lock; statement sqlite (insert_or_replace task.id (as_str task.status)); pure tt

  -- the branch of `update` that another writer has won
  unfoldable pub update_conflict : UpdateTaskParams → Exec Store StoreError Task
  unfolding read_task
  update_conflict params = do
    current ← read_task params.task_id
    raise (illegal_transition current.status params.status)

  -- what `update` does with the number of rows that its write has changed
  abbrev after_write : UpdateTaskParams → ℕ → Exec Store StoreError Task
  after_write params zero = update_conflict params
  after_write params (suc n) = pure (new_with_status params.task_id params.status)

  -- `update` from the task that it has read on
  unfoldable pub update_write : UpdateTaskParams → Task → Exec Store StoreError Task
  unfolding update_conflict as_str
  update_write params task =
      if not (can_transition_to task.status params.status)
      then raise (illegal_transition task.status params.status)
      else do
        changed ←
            statement sqlite (update_if (as_str params.status) params.task_id (as_str task.status))
        after_write params changed

  unfoldable pub update : UpdateTaskParams → Exec Store StoreError Task
  unfolding update_write read_task
  update params = do lock; task ← read_task params.task_id; update_write params task

  abbrev record_cancel : String → CancelOutcome → Task → Exec Store StoreError Task
  record_cancel task_id now_cancelled task = do statement sqlite (set_cancelled task_id); pure task
  record_cancel task_id (already_terminal _) task = pure task

  -- `cancel` from the task that it has read on
  unfoldable pub cancel_write : String → Task → Exec Store StoreError Task
  cancel_write task_id task =
      let (outcome, task') = Tasks.cancel task in record_cancel task_id outcome task'

  unfoldable pub cancel : String → Exec Store StoreError Task
  unfolding cancel_write read_task
  cancel task_id = do lock; task ← read_task task_id; cancel_write task_id task

  unfoldable pub sqlite_store : TaskStore Store
  sqlite_store = record { get = get; insert = insert; update = update; cancel = cancel }
