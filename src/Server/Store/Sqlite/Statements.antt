-- ===== src/Server/Store/Sqlite/Statements.antt =====
-- The part of rusqlite and SQLite that `SqliteStore` relies on, as a parameter of the model: a
-- state, one operation for each SQL statement of store.rs, and what SQL says of each. A statement
-- may also fail with an error of the engine; it is atomic, so the rows are then as they were.
use longhaul.Base.{
  ℕ, String, ◌≡◌, ◌⊎◌, Bool, true, false, ◌&&◌, Option, none, some, if◌then◌else◌, ◌==◌, Result, ok,
  err,
}
use longhaul.Base.Exec.{Exec}
use longhaul.Server.Store.{SqliteError, query_returned_no_rows, engine}

-- what `SELECT id, status FROM tasks WHERE id = ?1` answers where the row holds `o`
abbrev pub selected : String → Option String → Result (String × String) SqliteError
selected id none = err query_returned_no_rows
selected id (some status) = ok (id, status)

-- the test `id = ?2 AND status = ?3` on the row of `id`
abbrev pub has_status : Option String → String → Bool
has_status none status = false
has_status (some s) status = s == status

-- the row after `UPDATE … SET status = 'cancelled'`
abbrev pub cancelled_row : Option String → Option String
cancelled_row none = none
cancelled_row (some s) = some "cancelled"

abbrev pub count_row : Bool → ℕ
count_row true = 1
count_row false = 0

pub record Engine : Type 1 where
  pub Db : Type 0
  -- the status text in the row of `tasks` with a given id
  pub row : Db → String → Option String
  -- SELECT id, status FROM tasks WHERE id = ?1
  pub select_row : String → Exec Db SqliteError (String × String)
  -- INSERT OR REPLACE INTO tasks (id, status) VALUES (?1, ?2)
  pub insert_or_replace : String → String → Exec Db SqliteError ℕ
  -- UPDATE tasks SET status = ?1 WHERE id = ?2 AND status = ?3
  pub update_if : String → String → String → Exec Db SqliteError ℕ
  -- UPDATE tasks SET status = 'cancelled' WHERE id = ?1
  pub set_cancelled : String → Exec Db SqliteError ℕ
  pub select_lem :
      (id : String) (d : Db)
      → (((select_row id d).0 ≡ selected id (row d id))
          ⊎ ((m : String) × ((select_row id d).0 ≡ err (engine m))))
        × ((k : String) → row (select_row id d).1 k ≡ row d k)
  pub insert_lem :
      (id status : String) (d : Db)
      → (((n : ℕ) × ((insert_or_replace id status d).0 ≡ ok n)
            × ((k : String)
                → row (insert_or_replace id status d).1 k
                  ≡ (if id == k then some status else row d k)))
          ⊎ ((m : String) × ((insert_or_replace id status d).0 ≡ err (engine m))
              × ((k : String) → row (insert_or_replace id status d).1 k ≡ row d k)))
  pub update_lem :
      (new id old : String) (d : Db)
      → (((update_if new id old d).0 ≡ ok (count_row (has_status (row d id) old)))
          × ((k : String)
              → row (update_if new id old d).1 k
                ≡ (if id == k && has_status (row d id) old then some new else row d k)))
        ⊎ ((m : String) × ((update_if new id old d).0 ≡ err (engine m))
            × ((k : String) → row (update_if new id old d).1 k ≡ row d k))
  pub cancel_lem :
      (id : String) (d : Db)
      → ((n : ℕ) × ((set_cancelled id d).0 ≡ ok n)
          × ((k : String)
              → row (set_cancelled id d).1 k
                ≡ (if id == k then cancelled_row (row d id) else row d k)))
        ⊎ ((m : String) × ((set_cancelled id d).0 ≡ err (engine m))
            × ((k : String) → row (set_cancelled id d).1 k ≡ row d k))
