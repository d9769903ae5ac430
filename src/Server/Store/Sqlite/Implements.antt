-- ===== src/Server/Store/Sqlite/Implements.antt =====
-- The database store keeps the promises of the trait, as long as no other connection writes between
-- two statements of one method. Of a task it keeps the id and the status alone.
use longhaul.Base.{String, ◌≡◌, refl, sym, inl, inr, true, false, arith, Bool-cases, Result, err}
use longhaul.Server.Store.Sqlite
use mathlib.Core.Path.{subst}
use longhaul.Server.Store.Sqlite.{
  lock, statement, Store, read_task, update_write, cancel_write, sqlite_store,
}
use longhaul.Server.Store.{lock_poisoned, StoreError, sqlite}
use longhaul.Base.Exec.{Exec, ◌>>◌, ◌>>=◌, pure}
use longhaul.Core.Tasks.{Task, as_str, UpdateTaskParams}
use longhaul.Server.Store.Contract.{
  View, MeetsUnless, MeetsBehindLock, Answers, Implements, Implements-of_Answers, spec_get,
  spec_insert, spec_update, spec_cancel,
}
use longhaul.Server.Store.Sqlite.Reading.{sqlite_view, ReadFails, read_task_lem, sqlite_view-same}
use longhaul.Server.Store.Sqlite.Lock.{
  get-KeepsLock, insert-KeepsLock, update-KeepsLock, cancel-KeepsLock,
}
use longhaul.Server.Store.Sqlite.Unlocked.{
  stripped, UpdateFails, CancelFails, InsertFails, get_of_Reads, view-Rewritten, update_of_Reads,
  cancel_of_Reads,
}
use longhaul.Server.Store.Sqlite.Statements.{Engine}

module _ (e : Engine) where
  lock_clean :
      {A : Type 0} (m : Exec (Store e) StoreError A) (s : Store e)
      → s.poisoned ≡ false
      → (lock e >> m) s ≡ m s
  lock_clean m s h = ground arith

  lock_stuck :
      {A : Type 0} (m : Exec (Store e) StoreError A) (s : Store e)
      → s.poisoned ≡ true
      → (lock e >> m) s ≡ (err lock_poisoned, s)
  lock_stuck m s h = ground arith

  -- The lock comes first.
  MeetsBehindLock-lock :
      {A : Type 0} (m : Exec (Store e) StoreError A) (s : Store e)
      (spec : Result A StoreError × View) (cause : Type 0)
      → MeetsUnless (sqlite_view e) cause s (m s) spec
      → MeetsBehindLock (sqlite_view e) s.poisoned cause s ((lock e >> m) s) spec
  MeetsBehindLock-lock m s spec cause h = elim (Bool-cases s.poisoned) [
    | inl poisoned ↦ inl (poisoned, lock_stuck m s poisoned)
    | inr clean ↦ inr (
      clean,
      subst (λ r. MeetsUnless (sqlite_view e) cause s r spec) (sym (lock_clean m s clean)) h,
    )
  ]

  get-MeetsBehindLock :
      (id : String) (s : Store e)
      → MeetsBehindLock
          (sqlite_view e)
          s.poisoned
          (ReadFails e id s)
          s
          (Sqlite.get e id s)
          (spec_get id (sqlite_view e s))
  unfolding Sqlite.get
  get-MeetsBehindLock id s =
      MeetsBehindLock-lock (read_task e id) s (spec_get id (sqlite_view e s)) (ReadFails e id s)
        (get_of_Reads e id s (read_task_lem e id s))

  insert-MeetsBehindLock :
      (t : Task) (s : Store e)
      → MeetsBehindLock
          (sqlite_view e)
          s.poisoned
          (InsertFails e t s)
          s
          (Sqlite.insert e t s)
          (spec_insert stripped t (sqlite_view e s))
  unfolding Sqlite.insert
  insert-MeetsBehindLock t s =
      MeetsBehindLock-lock
        (statement e sqlite (e.insert_or_replace t.id (as_str t.status)) >> pure tt) s
        (spec_insert stripped t (sqlite_view e s)) (InsertFails e t s)
        (elim (e.insert_lem t.id (as_str t.status) s.db) [
          | inl (n, q, rows) ↦ rw q (inl (refl, view-Rewritten e s t.id t.status _ rows))
          | inr (m, q, rows) ↦ rw q (inr ((m, refl), tt, λ k. sqlite_view-same e s _ k rows))
        ])

  update-MeetsBehindLock :
      (p : UpdateTaskParams) (s : Store e)
      → MeetsBehindLock
          (sqlite_view e)
          s.poisoned
          (UpdateFails e p s)
          s
          (Sqlite.update e p s)
          (spec_update p (sqlite_view e s))
  unfolding Sqlite.update
  update-MeetsBehindLock p s =
      MeetsBehindLock-lock (read_task e p.task_id >>= update_write e p) s
        (spec_update p (sqlite_view e s)) (UpdateFails e p s)
        (update_of_Reads e p s (read_task_lem e p.task_id s))

  cancel-MeetsBehindLock :
      (id : String) (s : Store e)
      → MeetsBehindLock
          (sqlite_view e)
          s.poisoned
          (CancelFails e id s)
          s
          (Sqlite.cancel e id s)
          (spec_cancel id (sqlite_view e s))
  unfolding Sqlite.cancel
  cancel-MeetsBehindLock id s =
      MeetsBehindLock-lock (read_task e id >>= cancel_write e id) s
        (spec_cancel id (sqlite_view e s)) (CancelFails e id s)
        (cancel_of_Reads e id s (read_task_lem e id s))

  -- On every engine and from every state of the database whose lock is not poisoned, each method of
  -- the database store that no other connection interrupts does what the trait says to the map of
  -- tasks, of which the table keeps the id and the status, and answers with what the trait says.
  -- Only two things make it fault, and then no task changes: a statement that the method runs fails
  -- in the database as the method finds it, or the row of the task holds a text that is no status.
  -- Where the lock is poisoned, each method answers with that and changes nothing. No method poisons
  -- the lock.
  pub sqlite_store-Answers :
      Answers
        (sqlite_view e)
        (sqlite_store e)
        stripped
        (λ s. s.poisoned)
        (ReadFails e)
        (CancelFails e)
        (InsertFails e)
        (UpdateFails e)
  unfolding sqlite_store
  sqlite_store-Answers = record {
    get_answers = get-MeetsBehindLock;
    insert_answers = insert-MeetsBehindLock;
    update_answers = update-MeetsBehindLock;
    cancel_answers = cancel-MeetsBehindLock;
    get_keeps_lock = get-KeepsLock e;
    insert_keeps_lock = insert-KeepsLock e;
    update_keeps_lock = update-KeepsLock e;
    cancel_keeps_lock = cancel-KeepsLock e;
  }

  pub sqlite_store-Implements : Implements (sqlite_view e) (sqlite_store e) stripped
  sqlite_store-Implements =
      Implements-of_Answers (sqlite_view e) (λ s. s.poisoned) (ReadFails e) (CancelFails e)
        (InsertFails e) (UpdateFails e) sqlite_store-Answers
