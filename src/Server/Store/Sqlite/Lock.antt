-- ===== src/Server/Store/Sqlite/Lock.antt =====
-- No method of the store poisons its lock: the flag of an instance stays as it is.
use longhaul.Base.{ℕ, zero, suc, String, ◌≡◌, refl, ◌∙◌, inl, inr, Bool-cases, ok, Result-cases}
use longhaul.Base.Exec.{Exec, ◌>>=◌, ◌>>◌}
use longhaul.Core.Tasks
use longhaul.Core.Tasks.{
  Task, UpdateTaskParams, can_transition_to, CancelOutcome, now_cancelled, already_terminal, as_str,
}
use longhaul.Server.Store.{StoreError, sqlite}
use longhaul.Server.Store.Sqlite.Statements.{Engine}
use longhaul.Server.Store.Sqlite
use longhaul.Server.Store.Sqlite.{
  Store, lock, statement, read_row, read_error, read_task, update_conflict, update_write,
  cancel_write, after_write, record_cancel,
}

module _ (e : Engine) where
  abbrev pub KeepsLock : {A E : Type 0} → Exec (Store e) E A → Type 0
  KeepsLock m = (s : Store e) → (m s).1.poisoned ≡ s.poisoned

  KeepsLock-bind :
      {A B : Type 0} (m : Exec (Store e) StoreError A) (f : A → Exec (Store e) StoreError B)
      → KeepsLock m
      → ((a : A) → KeepsLock (f a))
      → KeepsLock (m >>= f)
  KeepsLock-bind m f km kf s = elim (Result-cases (m s).0) [
    | inl (a, q) ↦ rw q (kf a (m s).1 ∙ km s)
    | inr (x, q) ↦ rw q (km s)
  ]

  KeepsLock-lock : KeepsLock (lock e)
  KeepsLock-lock s = elim (Bool-cases s.poisoned) [ inl q ↦ rw q refl | inr q ↦ rw q refl ]

  read-KeepsLock : (id : String) → KeepsLock (read_task e id)
  unfolding read_task
  read-KeepsLock id =
      KeepsLock-bind (statement e (read_error e id) (e.select_row id))
        (λ row s. (read_row e row, s)) (λ s. refl) (λ row s. refl)

  -- the method under the mutex
  KeepsLock-locked :
      {A : Type 0} (m : Exec (Store e) StoreError A) → KeepsLock m → KeepsLock (lock e >> m)
  KeepsLock-locked m km = KeepsLock-bind (lock e) (λ _. m) KeepsLock-lock (λ _. km)

  pub get-KeepsLock : (id : String) → KeepsLock (Sqlite.get e id)
  unfolding Sqlite.get
  get-KeepsLock id = KeepsLock-locked (read_task e id) (read-KeepsLock id)

  pub insert-KeepsLock : (t : Task) → KeepsLock (Sqlite.insert e t)
  unfolding Sqlite.insert
  insert-KeepsLock t =
      KeepsLock-locked (λ s. _)
        (KeepsLock-bind (statement e sqlite (e.insert_or_replace t.id (as_str t.status)))
          (λ n s. (ok tt, s)) (λ s. refl) (λ n s. refl))

  after-KeepsLock : (p : UpdateTaskParams) (changed : ℕ) → KeepsLock (after_write e p changed)
  unfolding update_conflict
  after-KeepsLock p zero =
      KeepsLock-bind (read_task e p.task_id) _ (read-KeepsLock p.task_id) (λ current s. refl)
  after-KeepsLock p (suc n) = λ s. refl

  write-KeepsLock : (p : UpdateTaskParams) (t : Task) → KeepsLock (update_write e p t)
  unfolding update_write
  write-KeepsLock p t s = elim (Bool-cases (can_transition_to t.status p.status)) [
    | inr illegal ↦ rw illegal refl
    | inl legal ↦ rw legal (
        KeepsLock-bind
          (statement e sqlite (e.update_if (as_str p.status) p.task_id (as_str t.status)))
          (after_write e p) (λ s. refl) (after-KeepsLock p) s)
  ]

  pub update-KeepsLock : (p : UpdateTaskParams) → KeepsLock (Sqlite.update e p)
  unfolding Sqlite.update
  update-KeepsLock p = KeepsLock-locked (read_task e p.task_id >>= update_write e p) (
      KeepsLock-bind (read_task e p.task_id) (update_write e p) (read-KeepsLock p.task_id)
        (write-KeepsLock p))

  record-KeepsLock :
      (id : String) (outcome : CancelOutcome) (t : Task) → KeepsLock (record_cancel e id outcome t)
  record-KeepsLock id now_cancelled t =
      KeepsLock-bind (statement e sqlite (e.set_cancelled id)) (λ n s. (ok t, s)) (λ s. refl)
        (λ n s. refl)
  record-KeepsLock id (already_terminal st) t = λ s. refl

  pub cancel-KeepsLock : (id : String) → KeepsLock (Sqlite.cancel e id)
  unfolding Sqlite.cancel cancel_write
  cancel-KeepsLock id = KeepsLock-locked (read_task e id >>= cancel_write e id) (
      KeepsLock-bind (read_task e id) (cancel_write e id) (read-KeepsLock id)
        (λ t. record-KeepsLock id (Tasks.cancel t).0 (Tasks.cancel t).1))
