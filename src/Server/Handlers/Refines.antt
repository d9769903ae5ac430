-- ===== src/Server/Handlers/Refines.antt =====
-- The three task methods as operations on the map of tasks that a store shows: the response is what
-- the contract of `TaskStore` says, or reports a fault.
use longhaul.Base.{
  String, ◌≡◌, refl, ap, ◌∙◌, ◌⊎◌, inl, inr, List, ◌<>◌, Result, ok, err, Result-cases,
}
use longhaul.Base.Dict.{Dict}
use longhaul.Core.Errors.{internal_error, invalid_params}
use longhaul.Core.Errors
use longhaul.Core.Tasks.{
  Task, as_str, UpdateTaskParams, GetTaskParams, CancelTaskParams, method_get, method_update,
  method_cancel,
}
use longhaul.Core.Jsonrpc.{Request, Response, params_as, failure}
use longhaul.Server.Store.{
  not_found, illegal_transition, display_store_error, SqliteError, StoreError, sqlite,
  lock_poisoned,
}
use longhaul.Server.Store.Contract.{
  View, Meets, IsFault, Implements, spec_get, spec_update, spec_cancel,
}
use longhaul.Server.Registry.{ToolEntry}
use longhaul.Server.Handlers.{ServerState, Wire, store_err_to_rpc, dispatch}
use longhaul.Server.Handlers.TaskCalls.{
  written, answered, dispatch-update, dispatch-get, dispatch-cancel,
}

module _ {W : Type 0} (wire : Wire) (show : SqliteError → String)
    (iterate : Dict (ToolEntry W) → List (ToolEntry W)) (state : ServerState W)
    (view : W → View) where
  -- the response to what an operation on the map has answered
  abbrev pub reply : Request → Result Task StoreError → Response
  reply req (ok t) = written req (wire.task.to_value t)
  reply req (err (not_found id)) =
      failure req.id (Errors.new invalid_params ("Task not found: " <> id))
  reply req (err (illegal_transition from to)) = failure req.id (
      Errors.new invalid_params ("Illegal task transition: " <> as_str from <> " -> " <> as_str to))
  reply req (err e) = failure req.id (Errors.new internal_error (display_store_error show e))

  -- The response and the tasks that are shown are what `spec` says; or the store's own answer is a
  -- fault, which is reported, and every task is shown as before.
  abbrev pub Follows :
      Request → W → Result Task StoreError × View → Result Task StoreError → Response × W → Type 0
  Follows req w spec answer r =
      ((r.0 ≡ reply req spec.0) × ((k : String) → view r.1 k ≡ spec.1 k))
      ⊎ (IsFault answer × (r.0 ≡ reply req answer) × ((k : String) → view r.1 k ≡ view w k))

  answered_lem :
      (req : Request) (r : Result Task StoreError × W)
      → answered wire show iterate state req r ≡ (reply req r.0, r.1)
  unfolding store_err_to_rpc
  answered_lem req (ok t, w) = elim (Result-cases (wire.task.to_value t)) [
    | inl (v, q) ↦ rw q refl
    | inr (e, q) ↦ rw q refl
  ]
  answered_lem req (err (not_found id), w) = refl
  answered_lem req (err (illegal_transition from to), w) = refl
  answered_lem req (err (sqlite e), w) = refl
  answered_lem req (err lock_poisoned, w) = refl

  Follows-of_Meets :
      (req : Request) (w : W) (spec : Result Task StoreError × View)
      (r : Result Task StoreError × W)
      → Meets view w r spec
      → Follows req w spec r.0 (reply req r.0, r.1)
  Follows-of_Meets req w spec r (inl (q, same)) = inl (ap (reply req) q, same)
  Follows-of_Meets req w spec r (inr (f, same)) = inr (f, refl, same)

  module _ (keep : Task → Task) (impl : Implements view state.store keep) where
    -- Over any store that keeps its contract, a readable `tasks/get`, `tasks/update` or
    -- `tasks/cancel` does to the tasks what the contract says and answers with the task that results,
    -- or with the error of the contract; or the store's operation has answered with a fault, which
    -- is reported with -32603, and the tasks are as they were.
    pub task_methods-Follows :
        (req : Request) (w : W)
        → ((p : GetTaskParams)
            → req.method ≡ method_get
            → params_as wire.get_task_params req ≡ ok p
            → Follows req w
                (spec_get p.task_id (view w))
                (state.store.get p.task_id w).0
                (dispatch wire show iterate state req w))
          × ((p : UpdateTaskParams)
              → req.method ≡ method_update
              → params_as wire.update_task_params req ≡ ok p
              → Follows req w
                  (spec_update p (view w))
                  (state.store.update p w).0
                  (dispatch wire show iterate state req w))
          × ((p : CancelTaskParams)
              → req.method ≡ method_cancel
              → params_as wire.cancel_task_params req ≡ ok p
              → Follows req w
                  (spec_cancel p.task_id (view w))
                  (state.store.cancel p.task_id w).0
                  (dispatch wire show iterate state req w))
    task_methods-Follows req w = (
      λ p m parsed.
          rw
            (dispatch-get wire show iterate state req w p m parsed
              ∙ answered_lem req (state.store.get p.task_id w))
            (Follows-of_Meets req w _ _ (impl.get_meets p.task_id w)),
      λ p m parsed.
          rw
            (dispatch-update wire show iterate state req w p m parsed
              ∙ answered_lem req (state.store.update p w))
            (Follows-of_Meets req w _ _ (impl.update_meets p w)),
      λ p m parsed.
          rw
            (dispatch-cancel wire show iterate state req w p m parsed
              ∙ answered_lem req (state.store.cancel p.task_id w))
            (Follows-of_Meets req w _ _ (impl.cancel_meets p.task_id w)),
    )
