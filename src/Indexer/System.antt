-- ===== src/Indexer/System.antt =====
-- examples/indexer/src/main.rs: the monitor, the worker and the clients of one indexing task, in any
-- interleaving. A step is one call of the store with what follows it up to the next call, or the
-- return of the walk.
pub mod Invariant
mod Tests
use longhaul.Base.{
  ℕ, suc, ◌-◌, String, ◌≡◌, Bool, true, false, ◌||◌, Option, none, some, Result, ok, err,
}
use mathlib.Core.Path.{subst}
use longhaul.Core.Tasks.{
  Task, TaskStatus, completed, failed, cancelled, is_terminal, UpdateTaskParams,
}
use longhaul.Core.Tasks.Lifecycle.{Follows, Follows-refl, Follows-trans, Follows-eq_of_terminal}
use longhaul.Server.Store.{StoreError, TaskStore}
use longhaul.Server.Store.Contract.{View, Implements}
use longhaul.Server.Store.Contract.Histories.{
  Op, get, update, perform, SparesAt, Progressed, perform-Progressed,
}
use longhaul.Indexer.{IndexResult, Entry, default_result, walk_and_index}
use longhaul.Indexer.Walk.{files_below, index_all, walk_and_index-prefix, append_nil}
use longhaul.Indexer.Worker.{
  Turn, fire, leave, again, turn_of, monitor_turn, settle_to, was_cancelled, complete,
}
use longhaul.Indexer.Worker.Laws.{shown_of_get, get-view, turn_of_fire}

-- where the worker stands: in the walk, back from it, after its look at the status, at its end
pub data Worker : Type 0 where
  walking : Worker
  returned : Result IndexResult String → Worker
  looked : IndexResult → Bool → Worker
  finished : Option IndexResult → Worker

-- the result that the worker holds or has held
abbrev pub result_of : Worker → Option IndexResult
result_of walking = none
result_of (returned (ok r)) = some r
result_of (returned (err e)) = none
result_of (looked r c) = some r
result_of (finished o) = o

pub record World (S : Type 0) : Type 0 where
  pub state : S
  -- the value of the watch channel, and whether the monitor is still in its loop
  pub fired : Bool
  pub monitoring : Bool
  pub worker : Worker

abbrev pub fires : Turn → Bool
fires fire = true
fires _ = false

abbrev pub stays_on : Turn → Bool
stays_on again = true
stays_on _ = false

module _ {S : Type 0} (store : TaskStore S) (lower : String → String) (tree : Entry)
    (id : String) where
  -- a turn of the monitor
  unfoldable pub poll : World S → World S
  unfolding monitor_turn
  poll w =
      let (turn, s) = monitor_turn store id w.state in
      record w { state = s; fired = w.fired || fires turn; monitoring = stays_on turn }

  pub data Step (w : World S) : World S → Type 0 where
    polls : w.monitoring ≡ true → Step w (poll w)
    -- the walk returns; what it read from the channel was there to be read
    returns :
        (readings : ℕ → Bool)
        → ((n : ℕ) → readings n ≡ true → readings (suc n) ≡ true)
        → ((n : ℕ) → readings n ≡ true → w.fired ≡ true)
        → w.worker ≡ walking
        → Step w (record w { worker = returned (ok (walk_and_index lower readings tree)) })
    panics : (e : String) → w.worker ≡ walking → Step w (record w { worker = returned (err e) })
    looks :
        (r : IndexResult)
        → w.worker ≡ returned (ok r)
        → Step w (record w {
          state = (was_cancelled store id w.state).1;
          worker = looked r (was_cancelled store id w.state).0;
        })
    settles :
        (r : IndexResult) (c : Bool)
        → w.worker ≡ looked r c
        → Step w (record w { state = complete store id c w.state; worker = finished (some r) })
    gives_up :
        (e : String)
        → w.worker ≡ returned (err e)
        → Step w (record w {
          state = (store.update (settle_to store id failed) w.state).1;
          worker = finished none;
        })
    -- a call of another task or of a client, which inserts no task of this id
    others : (op : Op) → SparesAt id op → Step w (record w { state = perform store op w.state })

  pub data Reach (w : World S) : World S → Type 0 where
    start : Reach w w
    then_step : {u v : World S} → Reach w u → Step u v → Reach w v
