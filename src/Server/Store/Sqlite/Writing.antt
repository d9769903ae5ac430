-- ===== src/Server/Store/Sqlite/Writing.antt =====
-- What `update` and `cancel` do to the rows once they have read a task, whatever the rows hold by
-- then: the task that was read may be stale.
use longhaul.Base.{
  String, ◌≡◌, ap, ◌∙◌, ◌≢◌, ◌⊎◌, inl, inr, Bool, true, false, ◌&&◌, Option, none, some, arith,
  eq_iff, if◌then◌else◌, ◌==◌, Bool-cases, Result, ok, err,
}
use longhaul.Base.Exec.{raise, ◌>>=◌}
use longhaul.Core.Tasks.{Task, as_str, can_transition_to, UpdateTaskParams, is_terminal, cancelled}
use longhaul.Core.Tasks.Lifecycle.{cancel_of_live, cancel_of_terminal}
use longhaul.Server.Store.{StoreError, illegal_transition, sqlite, engine, new_with_status}
use longhaul.Server.Store.Contract.{IsFault}
use longhaul.Server.Store.Sqlite.Statements.{Engine, has_status, cancelled_row}
use longhaul.Server.Store.Sqlite.{
  Store, statement, update_conflict, update_write, cancel_write, after_write,
}
use longhaul.Server.Store.Sqlite.Reading.{Reads, missing, found, faulty, SameRows, read_task_lem}

module _ (e : Engine) where
  open e use {Db, row, update_if, set_cancelled}

  -- `d` shows the rows of `s` with that of `id` rewritten.
  abbrev pub Rewritten : Store e → String → Option String → Db → Type 0
  Rewritten s id o d = (k : String) → row d k ≡ (if id == k then o else row s.db k)

  -- the conditional write fails
  abbrev pub WriteFails : UpdateTaskParams → Task → Store e → Type 0
  WriteFails p t s =
      (m : String) × ((update_if (as_str p.status) p.task_id (as_str t.status) s.db).0
        ≡ err (engine m))

  pub data Writes (p : UpdateTaskParams) (t : Task) (s : Store e)
      : Result Task StoreError × Store e → Type 0 where
    refused :
        can_transition_to t.status p.status ≡ false
        → Writes p t s (err (illegal_transition t.status p.status), s)
    written :
        {d : Db}
        → can_transition_to t.status p.status ≡ true
        → row s.db p.task_id ≡ some (as_str t.status)
        → Rewritten s p.task_id (some (as_str p.status)) d
        → Writes p t s (ok (new_with_status p.task_id p.status), record s { db = d })
    lost :
        {d : Db} (x : StoreError)
        → row s.db p.task_id ≢ some (as_str t.status)
        → SameRows e s d
        → Writes p t s (err x, record s { db = d })
    faulted :
        {d : Db} (x : StoreError)
        → SameRows e s d
        → IsFault {A = Task} (err x)
        → WriteFails p t s ⊎ (row s.db p.task_id ≢ some (as_str t.status))
        → Writes p t s (err x, record s { db = d })

  has_status-true : (o : Option String) (t : String) → has_status o t ≡ true → o ≡ some t
  has_status-true none t h = cc
  has_status-true (some u) t h = ap some ((eq_iff u t).0 h)

  has_status-false : (o : Option String) (t : String) → has_status o t ≡ false → o ≢ some t
  has_status-false none t h q = cc
  has_status-false (some u) t h q = ground (arith, eq_iff u t)

  lost_of_Reads :
      (p : UpdateTaskParams) (t : Task) (s : Store e) (d : Db)
      → row s.db p.task_id ≢ some (as_str t.status)
      → SameRows e s d
      → {r : Result Task StoreError × Store e} → Reads e p.task_id (record s { db = d }) r
      → Writes p t s
          (((λ _. r) >>= λ current. raise (illegal_transition current.status p.status)) s)
  lost_of_Reads p t s d h rows (missing same _) = lost _ h (λ k. same k ∙ rows k)
  lost_of_Reads p t s d h rows (found st same _ _) = lost _ h (λ k. same k ∙ rows k)
  lost_of_Reads p t s d h rows (faulty x same f _) = faulted x (λ k. same k ∙ rows k) f (inr h)

  -- the row that a conditional write leaves where its condition holds
  rows_written :
      (p : UpdateTaskParams) (t : Task) (s : Store e) (b : Bool) (d : Db)
      → b ≡ true
      → ((k : String)
          → row d k ≡ (if p.task_id == k && b then some (as_str p.status) else row s.db k))
      → Rewritten s p.task_id (some (as_str p.status)) d
  rows_written p t s true d h rows k = ground (arith, rows k)
  rows_written p t s false d h rows k = cc

  rows_kept :
      (p : UpdateTaskParams) (t : Task) (s : Store e) (b : Bool) (d : Db)
      → b ≡ false
      → ((k : String)
          → row d k ≡ (if p.task_id == k && b then some (as_str p.status) else row s.db k))
      → SameRows e s d
  rows_kept p t s true d h rows k = cc
  rows_kept p t s false d h rows k = ground (arith, rows k)

  write_of_legal :
      (p : UpdateTaskParams) (t : Task) (s : Store e)
      → can_transition_to t.status p.status ≡ true
      → Writes p t s (
          (statement e sqlite (update_if (as_str p.status) p.task_id (as_str t.status))
              >>= after_write e p)
            s)
  unfolding update_conflict
  write_of_legal p t s legal =
      let d : Db = (update_if (as_str p.status) p.task_id (as_str t.status) s.db).1 in
      elim (e.update_lem (as_str p.status) p.task_id (as_str t.status) s.db) [
        | inl (q, rows) ↦ elim (Bool-cases (has_status (row s.db p.task_id) (as_str t.status))) [
          | inl current ↦
              rw (q, current)
                (written legal (has_status-true _ _ current) (rows_written p t s _ d current rows))
          | inr stale ↦
              rw (q, stale)
                (lost_of_Reads p t s d (has_status-false _ _ stale) (rows_kept p t s _ d stale rows)
                  (read_task_lem e p.task_id (record s { db = d })))
        ]
        | inr (m, q, rows) ↦ rw q (faulted (sqlite (engine m)) rows tt (inl (m, q)))
      ]

  -- Every way in which an update may end after its first read.
  pub update_write_lem :
      (p : UpdateTaskParams) (t : Task) (s : Store e) → Writes p t s (update_write e p t s)
  unfolding update_write
  update_write_lem p t s = elim (Bool-cases (can_transition_to t.status p.status)) [
    | inl legal ↦ rw legal (write_of_legal p t s legal)
    | inr illegal ↦ rw illegal (refused illegal)
  ]

  pub data Cancels (id : String) (t : Task) (s : Store e)
      : Result Task StoreError × Store e → Type 0 where
    finished : is_terminal t.status ≡ true → Cancels id t s (ok t, s)
    overwritten :
        {d : Db}
        → is_terminal t.status ≡ false
        → Rewritten s id (cancelled_row (row s.db id)) d
        → Cancels id t s (ok (record t { status = cancelled }), record s { db = d })
    faulted :
        {d : Db} (x : StoreError)
        → SameRows e s d
        → IsFault {A = Task} (err x)
        → ((m : String) × ((set_cancelled id s.db).0 ≡ err (engine m)))
        → Cancels id t s (err x, record s { db = d })

  -- Every way in which a cancellation may end after its read.
  pub cancel_write_lem :
      (id : String) (t : Task) (s : Store e) → Cancels id t s (cancel_write e id t s)
  unfolding cancel_write
  cancel_write_lem id t s = elim (Bool-cases (is_terminal t.status)) [
    | inl done ↦ rw (cancel_of_terminal t done) (finished done)
    | inr live ↦ rw (cancel_of_live t live) (elim (e.cancel_lem id s.db) [
      | inl (n, q, rows) ↦ rw q (overwritten live rows)
      | inr (m, q, rows) ↦ rw q (faulted (sqlite (engine m)) rows tt (m, q))
    ])
  ]
