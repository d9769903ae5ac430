-- ===== src/Server/Store.antt =====
-- longhaul-server/src/store.rs: the errors and the trait of task stores. The two stores are the
-- modules `Memory` and `Sqlite`; what the trait promises is `Contract`.
pub mod Status
pub mod Contract
pub mod Memory
pub mod Sqlite
pub mod Refines
pub mod Migration
pub mod Suite
pub mod Race
mod Tests
use longhaul.Base.{◌-◌, ◌<◌, String, not, ◌<>◌}
use longhaul.Base.Exec.{Exec}
use longhaul.Core.Tasks.{TaskStatus, as_str, Task, UpdateTaskParams, new}

-- `rusqlite::Error`: the two variants that the program names, and any other with its message.
pub data SqliteError : Type 0 where
  query_returned_no_rows : SqliteError
  invalid_column_name : String → SqliteError
  engine : String → SqliteError

pub data StoreError : Type 0 where
  not_found : String → StoreError
  illegal_transition : TaskStatus → TaskStatus → StoreError
  sqlite : SqliteError → StoreError
  lock_poisoned : StoreError

-- The `#[error(…)]` texts; `show` is the `Display` of `rusqlite::Error`.
unfoldable pub display_store_error : (SqliteError → String) → StoreError → String
unfolding as_str
display_store_error show (not_found id) = "task not found: " <> id
display_store_error show (illegal_transition from to) =
    "illegal task transition: " <> as_str from <> " -> " <> as_str to
display_store_error show (sqlite e) = "sqlite error: " <> show e
display_store_error show lock_poisoned = "internal lock poisoned"

-- The trait `TaskStore`, each method as an action on the store's state.
pub record TaskStore (S : Type 0) : Type 0 where
  pub get : String → Exec S StoreError Task
  pub insert : Task → Exec S StoreError (Unit {0})
  pub update : UpdateTaskParams → Exec S StoreError Task
  pub cancel : String → Exec S StoreError Task

-- `TaskExt::new_with_status`
unfoldable pub new_with_status : String → TaskStatus → Task
unfolding new
new_with_status id status = record (new id) { status = status }
