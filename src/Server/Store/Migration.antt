-- ===== src/Server/Store/Migration.antt =====
-- longhaul-server/src/store.rs: `SqliteStore::open` and `migrate`, over the statements that they run.
-- A batch is not a transaction: where a statement of it fails, those before it stay done.
pub mod Laws
pub mod Opening
mod Tests
use longhaul.Base.{
  ◌+◌, String, ◌≡◌, ◌⊎◌, Bool, true, false, not, Option, none, some, List, [], ◌∷◌, ◌++◌,
  if◌then◌else◌, Result, ok, err, map_err,
}
use longhaul.Base.Int.{ℤ, pos, leb_ℤ}
use longhaul.Base.Exec.{Exec, pure, raise, lift, ◌>>=◌, ◌>>◌}
use longhaul.Server.Store.{SqliteError, StoreError, sqlite}
use longhaul.Server.Store.Sqlite.{SqliteStore}

-- What a file holds: the rows of `schema_version`, or none if there is no such table, whether there
-- is a table `tasks`, and the status text of each id in it.
pub record Layout : Type 0 where
  pub versions : Option (List ℤ)
  pub has_tasks : Bool
  pub rows : String → Option String

abbrev pub or_empty : Option (List ℤ) → List ℤ
or_empty none = []
or_empty (some vs) = vs

abbrev pub with_version_table : Layout → Layout
with_version_table l = record l { versions = some (or_empty l.versions) }

abbrev pub with_tasks_table : Layout → Layout
with_tasks_table l = record l { has_tasks = true }

abbrev pub without_versions : Layout → Layout
without_versions l = record l { versions = some [] }

abbrev pub with_version_one : Layout → Layout
with_version_one l = record l { versions = some (or_empty l.versions ++ (pos 1 ∷ [])) }

abbrev pub Holds : ℤ → List ℤ → Type 0
Holds v [] = ⊥
Holds v (x ∷ xs) = (x ≡ v) ⊎ Holds v xs

-- a statement changes what the file holds by `f`, or fails and changes nothing
abbrev pub Acts {ℓ} :
    {Db : Type 0} {L : Type ℓ} → (Db → L) → Exec Db SqliteError (Unit {0}) → (L → L) → Type ℓ
Acts {Db} view m f =
    (d : Db)
    → (((m d).0 ≡ ok tt) × (view (m d).1 ≡ f (view d)))
      ⊎ (((x : SqliteError) × ((m d).0 ≡ err x)) × (view (m d).1 ≡ view d))

pub record Connection : Type 1 where
  pub Db : Type 0
  pub view : Db → Layout
  -- `Connection::open`, and the two pragmas
  pub open_file : String → Exec Db SqliteError (Unit {0})
  pub set_wal : Exec Db SqliteError (Unit {0})
  pub set_synchronous : Exec Db SqliteError (Unit {0})
  -- CREATE TABLE IF NOT EXISTS schema_version
  pub create_version_table : Exec Db SqliteError (Unit {0})
  -- SELECT version FROM schema_version LIMIT 1
  pub select_version : Exec Db SqliteError ℤ
  -- CREATE TABLE IF NOT EXISTS tasks; DELETE FROM schema_version; INSERT INTO schema_version VALUES (1)
  pub create_tasks : Exec Db SqliteError (Unit {0})
  pub delete_versions : Exec Db SqliteError (Unit {0})
  pub insert_version : Exec Db SqliteError (Unit {0})
  pub open_acts : (path : String) → Acts view (open_file path) (λ l. l)
  pub wal_acts : Acts view set_wal (λ l. l)
  pub synchronous_acts : Acts view set_synchronous (λ l. l)
  pub version_table_acts : Acts view create_version_table with_version_table
  pub tasks_acts : Acts view create_tasks with_tasks_table
  pub delete_acts : Acts view delete_versions without_versions
  pub insert_acts : Acts view insert_version with_version_one
  pub select_acts :
      (d : Db)
      → (view (select_version d).1 ≡ view d)
        × ((v : ℤ) → (select_version d).0 ≡ ok v → Holds v (or_empty (view d).versions))

abbrev pub schema_version : ℤ
schema_version = pos 1

abbrev pub unwrap_or : {A E : Type 0} → Result A E → A → A
unwrap_or (ok a) d = a
unwrap_or (err e) d = d

module _ (c : Connection) where
  open c use {Db}

  -- `query_row(…).unwrap_or(0)`
  unfoldable pub current_version : Exec Db SqliteError ℤ
  current_version d = let (r, d') = c.select_version d in (ok (unwrap_or r (pos 0)), d')

  unfoldable pub create_schema : Exec Db SqliteError (Unit {0})
  create_schema = do c.create_tasks; c.delete_versions; c.insert_version

  -- `if current < SCHEMA_VERSION`
  unfoldable pub upgrade : ℤ → Exec Db SqliteError (Unit {0})
  unfolding create_schema
  upgrade current = if not (leb_ℤ schema_version current) then create_schema else pure tt

  unfoldable pub migrate : Exec Db SqliteError (Unit {0})
  unfolding current_version upgrade
  migrate = do c.create_version_table; current ← current_version; upgrade current

  -- `?` turns the engine's error into the store's
  abbrev step : Exec Db SqliteError (Unit {0}) → Exec Db StoreError (Unit {0})
  step m d = let (r, d') = m d in (map_err sqlite r, d')

  unfoldable pub open_store : String → Exec Db StoreError (SqliteStore Db)
  unfolding migrate
  open_store path = do
    step (c.open_file path)
    step c.set_wal
    step c.set_synchronous
    step migrate
    λ d. (ok (record { db = d; poisoned = false }), d)
