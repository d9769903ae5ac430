-- ===== src/Indexer/Finish/Laws.antt =====
-- A task of the indexer from its start to its end, with nothing in between.
use longhaul.Base.{String, ◌≡◌, ◌⊎◌, none, some}
use longhaul.Base.Dict
use longhaul.Base.Dict.{Dict}
use longhaul.Json.{ValueMethods}
use longhaul.Core.Tasks.{Task, TaskStatus}
use longhaul.Server.Store.{TaskStore}
use longhaul.Server.Store.Contract.{View, Implements, IsFault}
use longhaul.Indexer.Worker.{settle_to}
use longhaul.Indexer.Tool.{Platform, IndexerState}

module _ (p : Platform) {S : Type 0} (methods : ValueMethods) (view : S → View)
    (store : TaskStore S) (keep : Task → Task) (impl : Implements view store keep) where
  -- the end of a task in `s`: its sender is gone, and it has the given status, or the update that
  -- the worker makes in the store `u` is a fault and the task is as it was stored
  abbrev pub Ends : String → Task → TaskStatus → S → IndexerState p S → Type 0
  Ends id t status u s =
      (Dict.get s.cancel_txs id ≡ none)
      × ((view s.state id ≡ some (record t { status = status }))
          ⊎ (IsFault (store.update (settle_to store id status) u).0 × (view s.state id ≡ some t)))
