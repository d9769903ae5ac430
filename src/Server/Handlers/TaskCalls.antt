-- ===== src/Server/Handlers/TaskCalls.antt =====
-- The three task methods over any store that keeps the contract of `TaskStore`.
use longhaul.Base.{
  String, ◌≡◌, refl, ◌⊎◌, inl, inr, false, none, some, List, ◌<>◌, Result, ok, err, map_err, map_ok,
  Result-cases,
}
use longhaul.Base.Dict.{Dict}
use longhaul.Core.Errors.{new, invalid_params, internal_error}
use longhaul.Core.Tasks.{
  Task, UpdateTaskParams, method_update, GetTaskParams, CancelTaskParams, method_get, method_cancel,
  as_str, can_transition_to, transition_to,
}
use longhaul.Core.Jsonrpc.{Request, Response, params_as, success, failure}
use longhaul.Json.{Value}
use longhaul.Server.Store.{
  SqliteError, StoreError, not_found, illegal_transition, sqlite, lock_poisoned,
}
use longhaul.Server.Store.Contract.{View, Meets, Implements}
use longhaul.Server.Registry.{ToolEntry}
use longhaul.Server.Handlers.{
  ServerState, Wire, store_err_to_rpc, handle_tasks_update, dispatch, unwrap, ◌>>=◌, internal,
  respond, handle_tasks_get, handle_tasks_cancel,
}
use longhaul.Server.Handlers.Routing.{route-update, route-get, route-cancel}

-- The request was refused with -32602 and a given message, or a fault of the store was reported
-- with -32603.
abbrev pub Refused : Request → String → Response → Type 0
Refused req m response =
    (response ≡ failure req.id (new invalid_params m))
    ⊎ ((text : String) × (response ≡ failure req.id (new internal_error text)))

-- a result in its JSON, or the fault of its conversion
abbrev pub written : Request → Result Value String → Response
written req (ok v) = success req.id v
written req (err e) = failure req.id (new internal_error e)

module _ {W : Type 0} (wire : Wire) (show : SqliteError → String)
    (iterate : Dict (ToolEntry W) → List (ToolEntry W)) (state : ServerState W) where
  -- The response to what the store has answered.
  abbrev pub answered : Request → Result Task StoreError × W → Response × W
  answered req (err e, w) =
      let (code, m) = store_err_to_rpc show e in (failure req.id (new code m), w)
  answered req (ok t, w) = (
    unwrap wire show iterate state req
        (map_ok (success req.id) (map_err internal (wire.task.to_value t))),
    w,
  )

  answered_lem :
      (req : Request) (r : Result Task StoreError × W)
      → (let (x, w) =
            ((λ (_ : W). (map_err (store_err_to_rpc show) r.0, r.1)) >>= λ task.
            respond wire show iterate state wire.task task req)
              r.1 in
          (unwrap wire show iterate state req x, w))
        ≡ answered req r
  answered_lem req (err e, w) = refl
  answered_lem req (ok t, w) = elim (Result-cases (wire.task.to_value t)) [
    | inl (v, q) ↦ rw q
    | inr (x, q) ↦ rw q
  ]

  pub dispatch-update :
      (req : Request) (w : W) (p : UpdateTaskParams)
      → req.method ≡ method_update
      → params_as wire.update_task_params req ≡ ok p
      → dispatch wire show iterate state req w ≡ answered req (state.store.update p w)
  unfolding dispatch handle_tasks_update
  dispatch-update req w p m parsed =
      rw ((route-update wire show iterate state req m), parsed)
        (answered_lem req (state.store.update p w))

  pub dispatch-get :
      (req : Request) (w : W) (p : GetTaskParams)
      → req.method ≡ method_get
      → params_as wire.get_task_params req ≡ ok p
      → dispatch wire show iterate state req w ≡ answered req (state.store.get p.task_id w)
  unfolding dispatch handle_tasks_get
  dispatch-get req w p m parsed =
      rw ((route-get wire show iterate state req m), parsed)
        (answered_lem req (state.store.get p.task_id w))

  pub dispatch-cancel :
      (req : Request) (w : W) (p : CancelTaskParams)
      → req.method ≡ method_cancel
      → params_as wire.cancel_task_params req ≡ ok p
      → dispatch wire show iterate state req w ≡ answered req (state.store.cancel p.task_id w)
  unfolding dispatch handle_tasks_cancel
  dispatch-cancel req w p m parsed =
      rw ((route-cancel wire show iterate state req m), parsed)
        (answered_lem req (state.store.cancel p.task_id w))

  module _ (view : W → View) where
    -- The answer is a refusal, and every task is shown as before.
    abbrev pub RefusedUnchanged : Request → W → String → Response × W → Type 0
    RefusedUnchanged req w m r = Refused req m r.0 × ((k : String) → view r.1 k ≡ view w k)

    refused_of_Meets :
        (req : Request) (w : W) (m : String) (x : StoreError) (r : Result Task StoreError × W)
        → store_err_to_rpc show x ≡ (invalid_params, m)
        → Meets view w r (err x, view w)
        → RefusedUnchanged req w m (answered req r)
    refused_of_Meets req w m x (r, w') code (inl (q, same)) = rw (q, code) (inl refl, same)
    refused_of_Meets req w m x (err (sqlite e), w') code (inr (_, same)) =
        unfold store_err_to_rpc in (inr (_, refl), same)
    refused_of_Meets req w m x (err lock_poisoned, w') code (inr (_, same)) =
        unfold store_err_to_rpc in (inr (_, refl), same)
    refused_of_Meets req w m x (_, w') code (inr (f, same)) = absurd f

    module _ (keep : Task → Task) (impl : Implements view state.store keep) where
      -- Over any store that keeps its contract: a `tasks/update` off the life cycle is refused with
      -- -32602 and both statuses in the message, or a fault is reported with -32603, and every task
      -- is shown as before.
      pub update_illegal :
          (req : Request) (w : W) (p : UpdateTaskParams) (t : Task)
          → req.method ≡ method_update
          → params_as wire.update_task_params req ≡ ok p
          → view w p.task_id ≡ some t
          → can_transition_to t.status p.status ≡ false
          → RefusedUnchanged req w
              ("Illegal task transition: " <> as_str t.status <> " -> " <> as_str p.status)
              (dispatch wire show iterate state req w)
      unfolding transition_to store_err_to_rpc
      update_illegal req w p t m parsed shown illegal =
          let meets : Meets view w (state.store.update p w)
              (err (illegal_transition t.status p.status), view w) =
            (rw (shown, illegal) at (impl.update_meets p w)) in
          rw (dispatch-update req w p m parsed) (
            refused_of_Meets req w _ (illegal_transition t.status p.status) (state.store.update p w)
              refl meets)

      -- Over any store that keeps its contract: `tasks/update`, `tasks/get` and `tasks/cancel` for an
      -- id that the store does not have are refused with -32602 and the id in the message, or a
      -- fault is reported with -32603, and every task is shown as before.
      pub task_missing :
          (req : Request) (w : W)
          → ((p : UpdateTaskParams)
              → req.method ≡ method_update
              → params_as wire.update_task_params req ≡ ok p
              → view w p.task_id ≡ none
              → RefusedUnchanged req w
                  ("Task not found: " <> p.task_id)
                  (dispatch wire show iterate state req w))
            × ((p : GetTaskParams)
                → req.method ≡ method_get
                → params_as wire.get_task_params req ≡ ok p
                → view w p.task_id ≡ none
                → RefusedUnchanged req w
                    ("Task not found: " <> p.task_id)
                    (dispatch wire show iterate state req w))
            × ((p : CancelTaskParams)
                → req.method ≡ method_cancel
                → params_as wire.cancel_task_params req ≡ ok p
                → view w p.task_id ≡ none
                → RefusedUnchanged req w
                    ("Task not found: " <> p.task_id)
                    (dispatch wire show iterate state req w))
      unfolding store_err_to_rpc
      task_missing req w = (
        λ p m parsed gone. rw (dispatch-update req w p m parsed) (
            refused_of_Meets req w _ (not_found p.task_id) (state.store.update p w) refl
              (rw gone at (impl.update_meets p w))),
        λ p m parsed gone. rw (dispatch-get req w p m parsed) (
            refused_of_Meets req w _ (not_found p.task_id) (state.store.get p.task_id w) refl
              (rw gone at (impl.get_meets p.task_id w))),
        λ p m parsed gone. rw (dispatch-cancel req w p m parsed) (
            refused_of_Meets req w _ (not_found p.task_id) (state.store.cancel p.task_id w) refl
              (rw gone at (impl.cancel_meets p.task_id w))),
      )
