-- ===== src/Server/Store/Suite/Runs.antt =====
-- longhaul-server/src/store.rs: the tests, which run the programs on the two stores. `opened` is what
-- `SqliteStore::open(":memory:").unwrap()` gives.
use longhaul.Base.{Result}
use longhaul.Server.Store.Memory
use longhaul.Server.Store.Memory.{memory_store}
use longhaul.Server.Store.Sqlite.{Store, sqlite_store}
use longhaul.Server.Store.Sqlite.Statements.{Engine}
use longhaul.Server.Store.Suite.{
  Panic, lifecycle_test, illegal_transition_test, cancel_test, not_found_test,
}

abbrev pub Verdict : Type 0
Verdict = Result (Unit {0}) Panic

unfoldable pub memory_store_lifecycle : Verdict
unfolding Memory.new memory_store lifecycle_test
memory_store_lifecycle = let store = Memory.new in (lifecycle_test memory_store store).0

unfoldable pub memory_store_illegal_transition : Verdict
unfolding Memory.new memory_store illegal_transition_test
memory_store_illegal_transition =
    let store = Memory.new in (illegal_transition_test memory_store store).0

unfoldable pub memory_store_cancel : Verdict
unfolding Memory.new memory_store cancel_test
memory_store_cancel = let store = Memory.new in (cancel_test memory_store store).0

unfoldable pub memory_store_not_found : Verdict
unfolding Memory.new memory_store not_found_test
memory_store_not_found = let store = Memory.new in (not_found_test memory_store store).0

module _ (e : Engine) (opened : Store e) where
  unfoldable pub sqlite_store_lifecycle : Verdict
  unfolding sqlite_store lifecycle_test
  sqlite_store_lifecycle = (lifecycle_test (sqlite_store e) opened).0

  unfoldable pub sqlite_store_illegal_transition : Verdict
  unfolding sqlite_store illegal_transition_test
  sqlite_store_illegal_transition = (illegal_transition_test (sqlite_store e) opened).0

  unfoldable pub sqlite_store_cancel : Verdict
  unfolding sqlite_store cancel_test
  sqlite_store_cancel = (cancel_test (sqlite_store e) opened).0

  unfoldable pub sqlite_store_not_found : Verdict
  unfolding sqlite_store not_found_test
  sqlite_store_not_found = (not_found_test (sqlite_store e) opened).0
