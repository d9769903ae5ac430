-- ===== src/Server/Store/Sqlite/Reading.antt =====
-- What `read_task` finds, and what the database shows of its tasks.
use longhaul.Base.{
  String, ◌≡◌, refl, ap, ◌∙◌, ◌⊎◌, inl, inr, Option, none, some, Option-cases, Result, ok, err,
}
use longhaul.Core.Tasks.{Task, TaskStatus, as_str}
use longhaul.Server.Store.{
  StoreError, not_found, sqlite, invalid_column_name, engine, new_with_status,
}
use longhaul.Server.Store.Status.{parse_status, parse_status-as_str, as_str-parse_status}
use longhaul.Server.Store.Contract.{View, IsFault}
use longhaul.Server.Store.Sqlite.Statements.{Engine, selected}
use longhaul.Server.Store.Sqlite.{Store, read_task, read_row}

-- The task that a row of the table stands for; a row whose text is no status stands for none.
abbrev pub row_task : String → Option String → Option Task
row_task id none = none
row_task id (some t) = elim (parse_status t) [ none ↦ none | some s ↦ some (new_with_status id s) ]

module _ (e : Engine) where
  open e use {Db, row, select_row}

  abbrev pub sqlite_view : Store e → View
  sqlite_view s k = row_task k (row s.db k)

  -- `d` shows the same rows as `s`.
  abbrev pub SameRows : Store e → Db → Type 0
  SameRows s d = (k : String) → row d k ≡ row s.db k

  -- why a read may fail: the statement does, or the row of the task holds a text that is no status
  abbrev pub ReadFails : String → Store e → Type 0
  ReadFails id s =
      ((m : String) × ((select_row id s.db).0 ≡ err (engine m)))
      ⊎ ((t : String) × (row s.db id ≡ some t) × (parse_status t ≡ none))

  -- The three ways in which reading the task of `id` from `s` may end.
  pub data Reads (id : String) (s : Store e) : Result Task StoreError × Store e → Type 0 where
    missing :
        {d : Db}
        → SameRows s d
        → row s.db id ≡ none
        → Reads id s (err (not_found id), record s { db = d })
    found :
        {d : Db} (st : TaskStatus)
        → SameRows s d
        → row s.db id ≡ some (as_str st)
        → d ≡ (select_row id s.db).1
        → Reads id s (ok (new_with_status id st), record s { db = d })
    faulty :
        {d : Db} (x : StoreError)
        → SameRows s d
        → IsFault {A = Task} (err x)
        → ReadFails id s
        → Reads id s (err x, record s { db = d })

  Reads-read_row :
      (id t : String) (s : Store e) (d : Db)
      → SameRows s d
      → row s.db id ≡ some t
      → d ≡ (select_row id s.db).1
      → Reads id s (read_row e (id, t), record s { db = d })
  Reads-read_row id t s d same h now = elim (Option-cases (parse_status t)) [
    | inl bad ↦
        rw (bad, read_row) (faulty (sqlite (invalid_column_name t)) same tt (inr (t, h, bad)))
    | inr (st, good) ↦
        rw (good, read_row) (found st same (h ∙ ap some (as_str-parse_status t st good)) now)
  ]

  Reads-selected :
      (id : String) (s : Store e) (o : Option String)
      → row s.db id ≡ o
      → (select_row id s.db).0 ≡ selected id o
      → Reads id s (read_task e id s)
  unfolding read_task
  Reads-selected id s none h q = rw q (missing (e.select_lem id s.db).1 h)
  Reads-selected id s (some t) h q = rw q (Reads-read_row id t s _ (e.select_lem id s.db).1 h refl)

  pub read_task_lem : (id : String) (s : Store e) → Reads id s (read_task e id s)
  read_task_lem id s = elim (e.select_lem id s.db).0 [
    | inl q ↦ Reads-selected id s (row s.db id) refl q
    | inr (m, q) ↦
        unfold read_task in
        rw q (faulty (sqlite (engine m)) (e.select_lem id s.db).1 tt (inl (m, q)))
  ]

  pub sqlite_view-same :
      (s : Store e) (d : Db) (k : String)
      → SameRows s d
      → sqlite_view (record s { db = d }) k ≡ sqlite_view s k
  sqlite_view-same s d k same = ap (row_task k) (same k)

  pub sqlite_view-missing :
      (s : Store e) (id : String) → row s.db id ≡ none → sqlite_view s id ≡ none
  sqlite_view-missing s id h = ap (row_task id) h

  pub sqlite_view-found :
      (s : Store e) (id : String) (st : TaskStatus)
      → row s.db id ≡ some (as_str st)
      → sqlite_view s id ≡ some (new_with_status id st)
  sqlite_view-found s id st h = rw h (rw (parse_status-as_str st, row_task))
