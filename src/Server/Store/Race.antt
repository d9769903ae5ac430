-- ===== src/Server/Store/Race.antt =====
-- longhaul-server/src/store.rs: several instances on one database file. Each instance has its own
-- connection and mutex, so between the read and the write of one method the others may write. A
-- world is the file and what each thread has read; a step is one statement sequence of a method
-- that no other writer can come into.
use longhaul.Base.{
  ℕ, String, ◌≡◌, refl, sym, ap, ◌∙◌, ◌⊎◌, inl, inr, true, false, Option, some, arith, eq_iff,
  eq_refl, ◌==◌, Bool-cases, Result, ok, err,
}
use mathlib.Core.Logic.{ite}
use native.Mathlib.Decide.{ℕ_discrete}
use mathlib.Core.Path.{subst}
use longhaul.Core.Tasks.{Task, TaskStatus, as_str, UpdateTaskParams, new, is_terminal, cancelled}
use longhaul.Core.Tasks.Lifecycle.{
  ◌⟶◌, ⟶-of-can_transition_to, ◌⟶*◌, here, along, ⟶*-trans, is_terminal_iff, can_transition_to-of-⟶,
}
use longhaul.Server.Store.Status.{as_str_injective}
use longhaul.Server.Store.Sqlite.Reading.{Reads, missing, found, faulty, read_task_lem}
use longhaul.Server.Store.Sqlite.Statements.{cancelled_row, Engine}
use longhaul.Server.Store.{StoreError, new_with_status}
use longhaul.Server.Store.Sqlite.{Store, update_write, read_task, cancel_write}
use longhaul.Server.Store.Sqlite.Writing.{
  Writes, refused, written, lost, faulted, update_write_lem, Cancels, cancel_write_lem,
}

-- How a row may change: it stays, or its status moves along an arrow of the life cycle.
abbrev pub Moves : Option String → Option String → Type 0
Moves old new =
    (new ≡ old)
    ⊎ ((s : TaskStatus) × (t : TaskStatus) × (old ≡ some (as_str s))
        × (new ≡ some (as_str t))
        × (s ⟶ t))

module _ (e : Engine) where
  open e use {Db, row}

  update_of_Writes :
      (p : UpdateTaskParams) (t : Task) (s : Store e) (k : String)
      → {r : Result Task StoreError × Store e} → Writes e p t s r
      → Moves (row s.db k) (row r.1.db k)
  update_of_Writes p t s k (refused _) = inl refl
  update_of_Writes p t s k (written legal current rows) = elim (Bool-cases (p.task_id == k)) [
    | inl same ↦ inr (
      t.status,
      p.status,
      ap (row s.db) (sym ((eq_iff p.task_id k).0 same)) ∙ current,
      rows k ∙ (rw same refl),
      ⟶-of-can_transition_to t.status p.status legal,
    )
    | inr other ↦ inl (rows k ∙ (rw other refl))
  ]
  update_of_Writes p t s k (lost _ _ rows) = inl (rows k)
  update_of_Writes p t s k (faulted _ rows _ _) = inl (rows k)

  -- However stale the task is that an update has read, its guarded write moves a row along an
  -- arrow of the life cycle or leaves it: it never overwrites what another writer has finished.
  pub update_write-Moves :
      (p : UpdateTaskParams) (stale : Task) (s : Store e) (k : String)
      → Moves (row s.db k) (row (update_write e p stale s).1.db k)
  update_write-Moves p stale s k = update_of_Writes p stale s k (update_write_lem e p stale s)

  cancel_of_Cancels :
      (id : String) (t : Task) (s : Store e)
      → {r : Result Task StoreError × Store e} → Cancels e id t s r
      → {v : Task} {old : String} → is_terminal t.status ≡ false
      → row s.db id ≡ some old
      → r.0 ≡ ok v
      → (row r.1.db id ≡ some "cancelled") × (v ≡ record t { status = cancelled })
  cancel_of_Cancels id t s (Cancels.finished done) live h q = cc
  cancel_of_Cancels id t s (Cancels.overwritten _ rows) live h q =
      (ground (arith, rows id, eq_refl id, ap cancelled_row h), ground arith)
  cancel_of_Cancels id t s (Cancels.faulted x _ f _) live h q = cc

  written_of_Writes :
      (p : UpdateTaskParams) (t : Task) (s : Store e)
      → {r : Result Task StoreError × Store e} → Writes e p t s r
      → {u : Task} → r.0 ≡ ok u
      → (row r.1.db p.task_id ≡ some (as_str p.status)) × (u ≡ new_with_status p.task_id p.status)
  written_of_Writes p t s (refused _) q = cc
  written_of_Writes p t s (written legal current rows) q =
      (ground (arith, rows p.task_id, eq_refl p.task_id), ground arith)
  written_of_Writes p t s (lost _ _ rows) q = cc
  written_of_Writes p t s (faulted _ rows _ _) q = cc

  -- The write of a cancellation is not guarded. Where one instance has read a live task, another
  -- then stores a status by an update and reports it, and the first one's cancellation goes
  -- through, the row holds "cancelled": a status that was terminal has been overwritten, though no
  -- arrow of the life cycle leaves it.
  pub cancel_race :
      (p : UpdateTaskParams) (read_by_update read_by_cancel u v : Task) (s : Store e)
      → is_terminal p.status ≡ true
      → is_terminal read_by_cancel.status ≡ false
      → (update_write e p read_by_update s).0 ≡ ok u
      → (cancel_write e p.task_id read_by_cancel (update_write e p read_by_update s).1).0 ≡ ok v
      → (u.status ≡ p.status)
        × (row (update_write e p read_by_update s).1.db p.task_id ≡ some (as_str p.status))
        × (row
              (cancel_write e p.task_id read_by_cancel (update_write e p read_by_update s).1).1.db
              p.task_id
            ≡ some (as_str cancelled))
        × ¬ (p.status ⟶ cancelled)
  unfolding new_with_status as_str
  cancel_race p read_by_update read_by_cancel u v s done live qu qv =
      let s₁ : Store e = (update_write e p read_by_update s).1 in
      let (stored, is_u) =
        written_of_Writes p read_by_update s (update_write_lem e p read_by_update s) qu in
      let (gone, _) =
        cancel_of_Cancels p.task_id read_by_cancel s₁
          (cancel_write_lem e p.task_id read_by_cancel s₁) live stored qv in
      (
        ap (λ (t : Task). t.status) is_u,
        stored,
        gone,
        λ a. cc ((is_terminal_iff p.status).0 done cancelled, can_transition_to-of-⟶ a),
      )

  -- What a thread holds between the read and the write of a method.
  pub data Phase : Type 0 where
    idle : Phase
    updating : UpdateTaskParams → Task → Phase
    cancelling : String → Task → Phase

  pub record World : Type 0 where
    pub file : Db
    pub phase : ℕ → Phase

  abbrev pub connection : World → Store e
  connection w = record { db = w.file; poisoned = false }

  abbrev pub with_phase : World → ℕ → Phase → ℕ → Phase
  with_phase w i ph j = ite (ℕ_discrete i j) ph (w.phase j)

  -- One step of thread `i` of an `update`: the read, whatever it answers, and the write.
  pub data UpdateStep (w : World) : World → Type 0 where
    read_found :
        (i : ℕ) (p : UpdateTaskParams) (t : Task)
        → w.phase i ≡ idle
        → (read_task e p.task_id (connection w)).0 ≡ ok t
        → UpdateStep w (record {
          file = (read_task e p.task_id (connection w)).1.db;
          phase = with_phase w i (updating p t);
        })
    read_failed :
        (i : ℕ) (p : UpdateTaskParams) (x : StoreError)
        → w.phase i ≡ idle
        → (read_task e p.task_id (connection w)).0 ≡ err x
        → UpdateStep w (record w { file = (read_task e p.task_id (connection w)).1.db })
    write :
        (i : ℕ) (p : UpdateTaskParams) (t : Task)
        → w.phase i ≡ updating p t
        → UpdateStep w (record {
          file = (update_write e p t (connection w)).1.db;
          phase = with_phase w i idle;
        })

  pub data Interleaving (w : World) : World → Type 0 where
    start : Interleaving w w
    then_step : {u v : World} → Interleaving w u → UpdateStep u v → Interleaving w v

  read_task_row :
      (id : String) (s : Store e) (k : String)
      → {r : Result Task StoreError × Store e} → Reads e id s r
      → row r.1.db k ≡ row s.db k
  read_task_row id s k (missing same _) = same k
  read_task_row id s k (found _ same _ _) = same k
  read_task_row id s k (faulty _ same _ _) = same k

  UpdateStep-Moves :
      {w w' : World} → UpdateStep w w' → (k : String) → Moves (row w.file k) (row w'.file k)
  UpdateStep-Moves {w} (read_found i p t _ _) k =
      inl (read_task_row p.task_id (connection w) k (read_task_lem e p.task_id (connection w)))
  UpdateStep-Moves {w} (read_failed i p x _ _) k =
      inl (read_task_row p.task_id (connection w) k (read_task_lem e p.task_id (connection w)))
  UpdateStep-Moves {w} (write i p t _) k = update_write-Moves p t (connection w) k

  -- Any number of threads on any number of instances may interleave the reads and writes of their
  -- updates as they like: the status in a row moves along the life cycle only, and a row that
  -- holds a status never loses it.
  pub Interleaving-⟶* :
      {w w' : World}
      → Interleaving w w'
      → (k : String) (st : TaskStatus) → row w.file k ≡ some (as_str st)
      → (st' : TaskStatus) × (row w'.file k ≡ some (as_str st')) × (st ⟶* st')
  Interleaving-⟶* start k st h = (st, h, here)
  Interleaving-⟶* (then_step l step) k st h =
      let (st₁, h₁, path) = Interleaving-⟶* l k st h in
      elim (UpdateStep-Moves step k) [
        | inl same ↦ (st₁, same ∙ h₁, path)
        | inr (a, b, ha, hb, arrow) ↦ (
          b,
          hb,
          ⟶*-trans path
              (along (subst (λ x. x ⟶ b) (as_str_injective a st₁ (cc (ha, h₁))) arrow) here),
        )
      ]
