-- ===== src/Indexer/Finish.antt =====
-- examples/indexer/src/main.rs: the worker's closure from the return of the walk on, on the state of
-- the indexer: the sender goes, and the task is settled.
pub mod Laws
mod Tests
use longhaul.Base.{String, Result}
use longhaul.Base.Dict
use longhaul.Server.Store.{TaskStore}
use longhaul.Indexer.{IndexResult}
use longhaul.Indexer.Worker.{index_worker}
use longhaul.Indexer.Tool.{Platform, IndexerState}

module _ (p : Platform) {S : Type 0} (store : TaskStore S) where
  -- an `err` is a panic of the walk
  unfoldable pub finish_worker :
      String → Result IndexResult String → IndexerState p S → IndexerState p S
  unfolding index_worker
  finish_worker id result s = record s {
    cancel_txs = Dict.remove id s.cancel_txs;
    state = index_worker store id result s.state;
  }
