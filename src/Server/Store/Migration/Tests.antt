-- ===== src/Server/Store/Migration/Tests.antt =====
-- A concrete connection whose statements never fail, and a new file on it.
use longhaul.Base.{◌≡◌, refl, inl, false, none, List, [], ◌∷◌, Result, ok, err, ok_injective}
use longhaul.Base.Int.{ℤ}
use longhaul.Server.Store.{SqliteError, query_returned_no_rows}
use longhaul.Server.Store.Sqlite.{SqliteStore}
use longhaul.Server.Store.Migration.{
  Layout, Holds, Connection, with_version_table, with_tasks_table, without_versions,
  with_version_one, or_empty, create_schema, current_version, upgrade, migrate, open_store,
}
use longhaul.Server.Store.Migration.Laws.{IsReady, Keeps, current_layout, migrate_twice}
use longhaul.Server.Store.Migration.Opening.{open_store_lem}

abbrev first_of : List ℤ → Result ℤ SqliteError
first_of [] = err query_returned_no_rows
first_of (v ∷ vs) = ok v

first_of_lem : (vs : List ℤ) (v : ℤ) → first_of vs ≡ ok v → Holds v vs
first_of_lem [] v h = cc
first_of_lem (x ∷ vs) v h = inl (ok_injective h)

abbrev sound : Connection
sound = record {
  Db = Layout;
  view = λ l. l;
  open_file = λ path l. (ok tt, l);
  set_wal = λ l. (ok tt, l);
  set_synchronous = λ l. (ok tt, l);
  create_version_table = λ l. (ok tt, with_version_table l);
  select_version = λ l. (first_of (or_empty l.versions), l);
  create_tasks = λ l. (ok tt, with_tasks_table l);
  delete_versions = λ l. (ok tt, without_versions l);
  insert_version = λ l. (ok tt, with_version_one l);
  open_acts = λ path l. inl (refl, refl);
  wal_acts = λ l. inl (refl, refl);
  synchronous_acts = λ l. inl (refl, refl);
  version_table_acts = λ l. inl (refl, refl);
  tasks_acts = λ l. inl (refl, refl);
  delete_acts = λ l. inl (refl, refl);
  insert_acts = λ l. inl (refl, refl);
  select_acts = λ l. (refl, first_of_lem (or_empty l.versions));
}

abbrev new_file : Layout
new_file = record { versions = none; has_tasks = false; rows = λ id. none }

migrate_twice_example :
    ((migrate sound new_file).1 ≡ current_layout sound new_file)
    × ((migrate sound (migrate sound new_file).1).1 ≡ (migrate sound new_file).1)
unfolding migrate current_version upgrade create_schema
migrate_twice_example = migrate_twice sound new_file (inl refl) refl refl

open_store_lem_example :
    Keeps new_file (open_store sound "tasks.db" new_file).1
    × ((s : SqliteStore Layout)
        → (open_store sound "tasks.db" new_file).0 ≡ ok s
        → IsReady s.db × (s.poisoned ≡ false))
open_store_lem_example = open_store_lem sound "tasks.db" new_file (λ v h. absurd h)
