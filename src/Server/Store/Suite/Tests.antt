-- ===== src/Server/Store/Suite/Tests.antt =====
-- The tests of longhaul-server/src/store.rs on the two stores, as they start.
use longhaul.Base.{◌≡◌, refl, false, [], ok}
use longhaul.Base.Dict
use longhaul.Core.Tasks
use longhaul.Core.Tasks.{can_transition_to, transition_to, is_terminal, new, as_str}
use longhaul.Server.Store.{new_with_status}
use longhaul.Server.Store.Status.{parse_status}
use longhaul.Server.Store.Memory
use longhaul.Server.Store.Memory.{memory_store}
use longhaul.Server.Store.Sqlite
use longhaul.Server.Store.Sqlite.{Store, sqlite_store}
use longhaul.Server.Store.Sqlite.Rows.{rows}
use longhaul.Server.Store.Sqlite.Reading.{sqlite_view}
use longhaul.Server.Store.Sqlite.Unlocked.{stripped}
use longhaul.Server.Store.Sqlite.Implements.{sqlite_store-Implements}
use longhaul.Server.Store.Suite.{
  lifecycle_test, illegal_transition_test, cancel_test, not_found_test, insert_or_replace_test,
}
use longhaul.Server.Store.Suite.Runs.{
  memory_store_lifecycle, memory_store_illegal_transition, memory_store_cancel,
  memory_store_not_found, sqlite_store_lifecycle, sqlite_store_illegal_transition,
  sqlite_store_cancel, sqlite_store_not_found,
}
use longhaul.Server.Store.Suite.Endings.{Passes}
use longhaul.Server.Store.Suite.Laws.{suite-Passes}

abbrev empty_file : Store rows
empty_file = record { db = []; poisoned = false }

suite-Passes_example :
    Passes (lifecycle_test (sqlite_store rows) empty_file)
    × Passes (illegal_transition_test (sqlite_store rows) empty_file)
    × Passes (cancel_test (sqlite_store rows) empty_file)
    × Passes (not_found_test (sqlite_store rows) empty_file)
    × Passes (insert_or_replace_test (sqlite_store rows) empty_file)
unfolding Dict.get new_with_status
suite-Passes_example =
    suite-Passes (sqlite_view rows) (sqlite_store rows) stripped (sqlite_store-Implements rows)
      (λ t. refl) empty_file refl

memory_passes :
    (memory_store_lifecycle ≡ ok tt)
    × (memory_store_illegal_transition ≡ ok tt)
    × (memory_store_cancel ≡ ok tt)
    × (memory_store_not_found ≡ ok tt)
unfolding memory_store_lifecycle memory_store_illegal_transition memory_store_cancel
    memory_store_not_found lifecycle_test illegal_transition_test cancel_test not_found_test
    memory_store Memory.new Memory.get Memory.insert Memory.update Memory.cancel Dict.get
    Dict.insert Tasks.cancel is_terminal transition_to can_transition_to new
memory_passes = (refl, refl, refl, refl)

sqlite_passes :
    (sqlite_store_lifecycle rows empty_file ≡ ok tt)
    × (sqlite_store_illegal_transition rows empty_file ≡ ok tt)
    × (sqlite_store_cancel rows empty_file ≡ ok tt)
    × (sqlite_store_not_found rows empty_file ≡ ok tt)
    × ((insert_or_replace_test (sqlite_store rows) empty_file).0 ≡ ok tt)
unfolding sqlite_store_lifecycle sqlite_store_illegal_transition sqlite_store_cancel
    sqlite_store_not_found lifecycle_test illegal_transition_test cancel_test not_found_test
    insert_or_replace_test sqlite_store Sqlite.get Sqlite.insert Sqlite.update Sqlite.cancel
    Sqlite.read_task Sqlite.update_write Sqlite.update_conflict Sqlite.cancel_write parse_status
    as_str Tasks.cancel is_terminal can_transition_to new_with_status Dict.get Dict.insert new
sqlite_passes = (refl, refl, refl, refl, refl)
