-- ===== src/Indexer/Worker.antt =====
-- examples/indexer/src/main.rs: the background tasks of `spawn_index_task`. The monitor polls the
-- store and fires the channel; the worker settles the task when the walk has returned.
pub mod Laws
mod Tests
use longhaul.Base.{
  ℕ, zero, suc, String, Bool, true, false, not, none, if◌then◌else◌, Result, ok, err,
}
use longhaul.Core.Tasks.{
  Task, TaskStatus, working, input_required, completed, failed, cancelled, is_terminal,
  UpdateTaskParams,
}
use longhaul.Server.Store.{StoreError, TaskStore}
use longhaul.Indexer.{IndexResult}

-- what one turn of the monitor does: it fires the channel and ends, it ends, or it polls again
pub data Turn : Type 0 where
  fire leave again : Turn

abbrev pub is_cancelled : TaskStatus → Bool
is_cancelled cancelled = true
is_cancelled _ = false

-- the `match` of the monitor, its arms in order
unfoldable pub turn_of : Result Task StoreError → Turn
unfolding is_terminal
turn_of (ok t) =
    if is_cancelled t.status then fire else if is_terminal t.status then leave else again
turn_of (err e) = leave

-- `.map(|t| t.status == TaskStatus::Cancelled).unwrap_or(false)`
unfoldable pub saw_cancelled : Result Task StoreError → Bool
saw_cancelled (ok t) = is_cancelled t.status
saw_cancelled (err e) = false

module _ {S : Type 0} (store : TaskStore S) (id : String) where
  unfoldable pub monitor_turn : S → Turn × S
  unfolding turn_of
  monitor_turn s = let (r, s') = store.get id s in (turn_of r, s')

  abbrev pub settle_to : TaskStatus → UpdateTaskParams
  settle_to status = record { task_id = id; status = status; meta = none }

  unfoldable pub was_cancelled : S → Bool × S
  unfolding saw_cancelled
  was_cancelled s = let (r, s') = store.get id s in (saw_cancelled r, s')

  -- `if !was_cancelled`; an error of the update is logged and dropped
  unfoldable pub complete : Bool → S → S
  complete c s = if not c then (store.update (settle_to completed) s).1 else s

  -- the worker from the end of the walk on, undisturbed; an `err` is a panic of the walk
  unfoldable pub index_worker : Result IndexResult String → S → S
  unfolding complete was_cancelled
  index_worker (ok r) s = let (c, s') = was_cancelled s in complete c s'
  index_worker (err e) s = (store.update (settle_to failed) s).1

  -- How the loop of the monitor stands after some turns.
  pub data Monitor : Type 0 where
    polling : S → Monitor
    stopped : Bool → S → Monitor

  -- The loop, with fuel for the turns: `others n` is what the rest of the program does to the store
  -- in the sleep before turn `n`. `stopped true` is the end in which the channel was fired.
  unfoldable pub monitor_loop : (ℕ → S → S) → ℕ → ℕ → S → Monitor
  unfolding monitor_turn
  monitor_loop others zero n s = polling s
  monitor_loop others (suc fuel) n s =
      let (turn, s') = monitor_turn (others n s) in
      let next = monitor_loop others fuel (suc n) s' in
      elim turn [ fire ↦ stopped true s' | leave ↦ stopped false s' | again ↦ next ]

  -- the state that the monitor polls in turn `k` after turn `n`, if it has not ended before
  unfoldable pub polled : (ℕ → S → S) → ℕ → ℕ → S → S
  unfolding monitor_turn
  polled others zero n s = others n s
  polled others (suc k) n s = polled others k (suc n) (monitor_turn (others n s)).1
