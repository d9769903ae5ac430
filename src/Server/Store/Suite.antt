-- ===== src/Server/Store/Suite.antt =====
-- longhaul-server/src/store.rs, the module `tests`: the programs that every store has to pass, as
-- actions that may panic. `Suite.Laws` runs them over any store that keeps its contract.
pub mod Endings
pub mod Laws
mod Runs
mod Tests
use longhaul.Base.{◌-◌, String, Bool, true, false, none, if◌then◌else◌, Result, ok, err, map_err}
use longhaul.Base.Exec.{Exec, pure, raise, ◌>>=◌, ◌>>◌}
use longhaul.Core.Tasks.{
  Task, TaskStatus, working, input_required, completed, failed, cancelled, UpdateTaskParams, new,
  same_status,
}
use longhaul.Server.Store.{
  StoreError, not_found, illegal_transition, sqlite, lock_poisoned, TaskStore,
}

-- How a test fails: `unwrap` on an error, another error than the one that was expected, no error
-- where one was expected, or another status.
pub data Panic : Type 0 where
  unwrapped : StoreError → Panic
  unexpected : StoreError → Panic
  no_error : Panic
  other_status : TaskStatus → Panic

abbrev pub update : String → TaskStatus → UpdateTaskParams
update task_id status = record { task_id = task_id; status = status; meta = none }

-- `matches!(err, StoreError::IllegalTransition { .. })` and `matches!(…, Err(StoreError::NotFound(_)))`
abbrev pub is_illegal : StoreError → Bool
is_illegal (illegal_transition from to) = true
is_illegal _ = false

abbrev pub is_missing : StoreError → Bool
is_missing (not_found id) = true
is_missing _ = false

-- the assertion on the error that `.unwrap_err()` gives
abbrev pub expected :
    {A : Type 0} → (StoreError → Bool) → Result A StoreError → Result (Unit {0}) Panic
expected test (ok a) = err no_error
expected test (err e) = if test e then ok tt else err (unexpected e)

module _ {S : Type 0} where
  -- `.unwrap()`
  abbrev pub unwrap : {A : Type 0} → Exec S StoreError A → Exec S Panic A
  unwrap m s = let (r, s') = m s in (map_err unwrapped r, s')

  abbrev pub fails_with :
      {A : Type 0} → (StoreError → Bool) → Exec S StoreError A → Exec S Panic (Unit {0})
  fails_with test m s = let (r, s') = m s in (expected test r, s')

  -- `assert_eq!(t.status, status)`
  abbrev pub assert_status : Task → TaskStatus → Exec S Panic (Unit {0})
  assert_status t status s =
      if same_status t.status status then (ok tt, s) else (err (other_status t.status), s)

  module _ (store : TaskStore S) where
    -- an update with the assertion on its answer
    abbrev pub moves_to : String → TaskStatus → Exec S Panic (Unit {0})
    moves_to id status = do t ← unwrap (store.update (update id status)); assert_status t status

    abbrev pub cancels : String → Exec S Panic (Unit {0})
    cancels id = do t ← unwrap (store.cancel id); assert_status t cancelled

    abbrev pub shows : String → TaskStatus → Exec S Panic (Unit {0})
    shows id status = do t ← unwrap (store.get id); assert_status t status

    unfoldable pub lifecycle_test : Exec S Panic (Unit {0})
    unfolding new
    lifecycle_test = do
      unwrap (store.insert (new "t1"))
      shows "t1" working
      moves_to "t1" input_required
      moves_to "t1" working
      moves_to "t1" completed

    unfoldable pub illegal_transition_test : Exec S Panic (Unit {0})
    unfolding new
    illegal_transition_test = do
      unwrap (store.insert (new "t2"))
      unwrap (store.update (update "t2" completed))
      fails_with is_illegal (store.update (update "t2" working))

    unfoldable pub cancel_test : Exec S Panic (Unit {0})
    unfolding new
    cancel_test = do unwrap (store.insert (new "t3")); cancels "t3"; cancels "t3"

    unfoldable pub not_found_test : Exec S Panic (Unit {0})
    not_found_test = do
      fails_with is_missing (store.get "no-such")
      fails_with is_missing (store.cancel "no-such")

    -- `sqlite_store_insert_or_replace`, after the opening
    unfoldable pub insert_or_replace_test : Exec S Panic (Unit {0})
    unfolding new
    insert_or_replace_test = do
      unwrap (store.insert (new "dup"))
      unwrap (store.update (update "dup" completed))
      unwrap (store.insert (new "dup"))
      shows "dup" working
