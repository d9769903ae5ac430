-- ===== src/Server/Store/Sqlite/Unlocked.antt =====
-- What each method of the database store does under its lock, as long as no other connection writes
-- between two of its statements. Of a task it keeps the id and the status alone.
use longhaul.Base.{
  String, ◌≡◌, refl, sym, ap, ◌∙◌, ◌⊎◌, inl, inr, Option, some, arith, eq_iff, ◌==◌, Bool-cases,
  Result, err,
}
use mathlib.Core.Path.{subst}
use longhaul.Server.Store.Sqlite.{Store, update_write, cancel_write}
use longhaul.Server.Store.{engine, StoreError, new_with_status}
use longhaul.Base.Exec.{◌>>=◌}
use longhaul.Core.Tasks.{Task, TaskStatus, as_str, transition_to, UpdateTaskParams, cancelled}
use longhaul.Core.Tasks.Lifecycle.{cancel_of_live, cancel_of_terminal}
use longhaul.Server.Store.Status.{parse_status-as_str}
use longhaul.Server.Store.Contract.{
  MeetsUnless, write, spec_get, spec_update, spec_cancel, moved, spec_cancel_at,
}
use longhaul.Server.Store.Sqlite.Writing.{
  Rewritten, WriteFails, Writes, refused, written, lost, faulted, Cancels, finished, overwritten,
  update_write_lem, cancel_write_lem,
}
use longhaul.Server.Store.Sqlite.Reading.{
  row_task, sqlite_view, ReadFails, Reads, missing, found, faulty, SameRows, sqlite_view-same,
  sqlite_view-missing, sqlite_view-found,
}
use longhaul.Server.Store.Sqlite.Statements.{Engine}

-- What a row of the table keeps of a task.
abbrev pub stripped : Task → Task
stripped t = new_with_status t.id t.status

module _ (e : Engine) where
  open e use {Db, row}

  -- Why each method may fault; a write comes after the read of the method.
  abbrev pub UpdateFails : UpdateTaskParams → Store e → Type 0
  UpdateFails p s =
      ReadFails e p.task_id s
      ⊎ ((t : Task) × (row s.db p.task_id ≡ some (as_str t.status))
          × WriteFails e p t (record s { db = (e.select_row p.task_id s.db).1 }))

  abbrev pub CancelFails : String → Store e → Type 0
  CancelFails id s =
      ReadFails e id s
      ⊎ ((m : String) × ((e.set_cancelled id (e.select_row id s.db).1).0 ≡ err (engine m)))

  abbrev pub InsertFails : Task → Store e → Type 0
  InsertFails t s =
      (m : String) × ((e.insert_or_replace t.id (as_str t.status) s.db).0 ≡ err (engine m))

  pub get_of_Reads :
      (id : String) (s : Store e) {r : Result Task StoreError × Store e}
      → Reads e id s r
      → MeetsUnless (sqlite_view e) (ReadFails e id s) s r (spec_get id (sqlite_view e s))
  get_of_Reads id s (missing {d} same h) =
      rw (sqlite_view-missing e s id h) (inl (refl, λ k. sqlite_view-same e s d k same))
  get_of_Reads id s (found {d} st same h _) =
      rw (sqlite_view-found e s id st h) (inl (refl, λ k. sqlite_view-same e s d k same))
  get_of_Reads id s (faulty {d} x same f why) = inr (why, f, λ k. sqlite_view-same e s d k same)

  pub view-Rewritten :
      (s : Store e) (id : String) (st : TaskStatus) (d : Db)
      → Rewritten e s id (some (as_str st)) d
      → (k : String)
      → sqlite_view e (record s { db = d }) k ≡ write id (new_with_status id st) (sqlite_view e s) k
  view-Rewritten s id st d rows k = elim (Bool-cases (id == k)) [
    | inl same ↦
        rw (rows k, same, parse_status-as_str st, row_task)
          (ap (λ j. some (new_with_status j st)) (sym ((eq_iff id k).0 same)))
    | inr other ↦ rw (rows k, other) refl
  ]

  module _ (s : Store e) (id : String) (st : TaskStatus) (d : Db) (same : SameRows e s d)
      (h : row s.db id ≡ some (as_str st)) (now : d ≡ (e.select_row id s.db).1) where
    write_same :
        {t : Task}
        → sqlite_view e s id ≡ some t
        → (k : String) → write id t (sqlite_view e s) k ≡ sqlite_view e s k
    write_same q k = elim (Bool-cases (id == k)) [
      | inl same ↦ rw same (sym q ∙ ap (sqlite_view e s) ((eq_iff id k).0 same))
      | inr other ↦ rw other refl
    ]

    -- The rows that the method has read are those that it writes to.
    Rewritten-same :
        (o : Option String) (d' : Db)
        → Rewritten e (record s { db = d }) id o d'
        → Rewritten e s id o d'
    Rewritten-same o d' rows k = ground (arith, rows k, same k)

    current_row : row d id ≡ some (as_str st)
    current_row = same id ∙ h

    update_of_Writes :
        (p : UpdateTaskParams) {r : Result Task StoreError × Store e}
        → p.task_id ≡ id
        → Writes e p (new_with_status id st) (record s { db = d }) r
        → MeetsUnless
            (sqlite_view e)
            (UpdateFails p s)
            s
            r
            (moved p.task_id (sqlite_view e s) (transition_to p.status (new_with_status id st)))
    unfolding transition_to new_with_status
    update_of_Writes p q (refused illegal) =
        rw illegal (inl (refl, λ k. sqlite_view-same e s d k same))
    update_of_Writes p q (written {d = d'} legal _ rows) =
        rw (legal, q)
          (inl (refl, view-Rewritten s id p.status d' (Rewritten-same _ d' (rw q at rows))))
    update_of_Writes p q (lost x stale _) = absurd (stale (rw q current_row))
    update_of_Writes p q (faulted {d = d'} x rows f (inl why)) =
        let why' =
          subst (λ x. WriteFails e p (new_with_status id st) (record s { db = x })) now why in
        inr (
          inr (new_with_status id st, rw q h, rw q (rw q at why')),
          f,
          λ k. sqlite_view-same e s d' k (λ j. rows j ∙ same j),
        )
    update_of_Writes p q (faulted x _ _ (inr stale)) = absurd (stale (rw q current_row))

    cancel_of_Cancels :
        {r : Result Task StoreError × Store e}
        → Cancels e id (new_with_status id st) (record s { db = d }) r
        → MeetsUnless
            (sqlite_view e)
            (CancelFails id s)
            s
            r
            (spec_cancel_at id (sqlite_view e s) (some (new_with_status id st)))
    unfolding new_with_status as_str
    cancel_of_Cancels (finished done) = rw (cancel_of_terminal (new_with_status id st) done) (
        inl (
          refl,
          λ k. sqlite_view-same e s d k same ∙ sym (write_same (sqlite_view-found e s id st h) k),
        ))
    cancel_of_Cancels (overwritten {d = d'} live rows) =
        rw (cancel_of_live (new_with_status id st) live) (
          inl
            (refl, view-Rewritten s id cancelled d' (Rewritten-same _ d' (rw current_row at rows))))
    cancel_of_Cancels (Cancels.faulted {d = d'} x rows f (m, q)) = inr (
      inr (m, subst (λ x. (e.set_cancelled id x).0 ≡ err (engine m)) now q),
      f,
      λ k. sqlite_view-same e s d' k (λ j. rows j ∙ same j),
    )

  pub update_of_Reads :
      (p : UpdateTaskParams) (s : Store e) {r : Result Task StoreError × Store e}
      → Reads e p.task_id s r
      → MeetsUnless
          (sqlite_view e)
          (UpdateFails p s)
          s
          (((λ _. r) >>= update_write e p) s)
          (spec_update p (sqlite_view e s))
  update_of_Reads p s (missing {d} same h) =
      rw (sqlite_view-missing e s p.task_id h) (inl (refl, λ k. sqlite_view-same e s d k same))
  update_of_Reads p s (found {d} st same h now) = rw (sqlite_view-found e s p.task_id st h) (
      update_of_Writes s p.task_id st d same h now p refl
        (update_write_lem e p (new_with_status p.task_id st) (record s { db = d })))
  update_of_Reads p s (faulty {d} x same f why) =
      inr (inl why, f, λ k. sqlite_view-same e s d k same)

  pub cancel_of_Reads :
      (id : String) (s : Store e) {r : Result Task StoreError × Store e}
      → Reads e id s r
      → MeetsUnless
          (sqlite_view e)
          (CancelFails id s)
          s
          (((λ _. r) >>= cancel_write e id) s)
          (spec_cancel id (sqlite_view e s))
  cancel_of_Reads id s (missing {d} same h) =
      rw (sqlite_view-missing e s id h) (inl (refl, λ k. sqlite_view-same e s d k same))
  cancel_of_Reads id s (found {d} st same h now) = rw (sqlite_view-found e s id st h) (
      cancel_of_Cancels s id st d same h now
        (cancel_write_lem e id (new_with_status id st) (record s { db = d })))
  cancel_of_Reads id s (faulty {d} x same f why) =
      inr (inl why, f, λ k. sqlite_view-same e s d k same)
