-- ===== src/Server/Handlers/Effects.antt =====
-- What a request can do to the state: one call of the store, or one call of a tool, or nothing.
use longhaul.Base.{String, ◌≡◌, refl, ap, ◌∙◌, inl, inr, some, List, Result, ok, err, Result-cases}
use longhaul.Base.Dict.{Dict}
use longhaul.Core.Discover.{method_discover}
use longhaul.Core.Tasks.{Task, UpdateTaskParams, method_get, method_update, method_cancel}
use longhaul.Core.Tools.{CallToolParams, method_list, method_call}
use longhaul.Core.Jsonrpc.{Request, Response, params_as}
use longhaul.Server.Store.{SqliteError, StoreError}
use longhaul.Server.Registry.{ToolEntry, list_result}
use longhaul.Server.Registry
use longhaul.Server.Handlers.{
  ServerState, Wire, dispatch, handle_discover, handle_tools_list, handle_tasks_get,
  handle_tasks_update, handle_tasks_cancel,
}
use longhaul.Server.Handlers.Routing.{
  IsKnown, IsKnown-cases, route-discover, route-list, route-get, route-update, route-cancel,
}
use longhaul.Server.Handlers.Envelope.{dispatch_of_unknown}
use longhaul.Server.Handlers.TaskCalls.{answered, dispatch-get, dispatch-update, dispatch-cancel}
use longhaul.Server.Handlers.ToolCalls.{unreadable, unknown, called, dispatch-ToolCall}

module _ {W : Type 0} (wire : Wire) (show : SqliteError → String)
    (iterate : Dict (ToolEntry W) → List (ToolEntry W)) (state : ServerState W) where
  -- the state `w'` after a request in `w`
  pub data Effect (w w' : W) : Type 0 where
    stays : w' ≡ w → Effect w w'
    gets : (id : String) → w' ≡ (state.store.get id w).1 → Effect w w'
    updates : (p : UpdateTaskParams) → w' ≡ (state.store.update p w).1 → Effect w w'
    cancels : (id : String) → w' ≡ (state.store.cancel id w).1 → Effect w w'
    calls :
        (entry : ToolEntry W) (p : CallToolParams)
        → Registry.get state.registry p.name ≡ some entry
        → w' ≡ (entry.handler p.arguments p.input_responses p.request_state w).1
        → Effect w w'

  pub answered_state :
      (req : Request) (r : Result Task StoreError × W)
      → (answered wire show iterate state req r).1 ≡ r.1
  answered_state req (ok t, w) = refl
  answered_state req (err e, w) = refl

  discover_state :
      (req : Request) (w : W)
      → req.method ≡ method_discover
      → (dispatch wire show iterate state req w).1 ≡ w
  unfolding dispatch handle_discover
  discover_state req w m =
      rw (route-discover wire show iterate state req m)
        (elim (Result-cases (wire.discover_result.to_value state.discover_result)) [
          | inl (v, q) ↦ rw q refl
          | inr (x, q) ↦ rw q refl
        ])

  list_state :
      (req : Request) (w : W)
      → req.method ≡ method_list
      → (dispatch wire show iterate state req w).1 ≡ w
  unfolding dispatch handle_tools_list
  list_state req w m =
      let written = wire.list_tools_result.to_value (list_result iterate state.registry) in
      rw (route-list wire show iterate state req m)
        (elim (Result-cases (params_as wire.list_tools_params req)) [
          | inr (x, q) ↦ rw q refl
          | inl (p, q) ↦ elim (Result-cases written) [
            | inl (v, q') ↦ rw (q, q') refl
            | inr (x, q') ↦ rw (q, q') refl
          ]
        ])

  get-Effect :
      (req : Request) (w : W)
      → req.method ≡ method_get
      → Effect w (dispatch wire show iterate state req w).1
  unfolding dispatch handle_tasks_get
  get-Effect req w m = elim (Result-cases (params_as wire.get_task_params req)) [
    | inr (x, q) ↦ stays (rw (route-get wire show iterate state req m, q) refl)
    | inl (p, q) ↦ gets p.task_id (
        ap (λ (r : Response × W). r.1) (dispatch-get wire show iterate state req w p m q)
        ∙ answered_state req (state.store.get p.task_id w))
  ]

  update-Effect :
      (req : Request) (w : W)
      → req.method ≡ method_update
      → Effect w (dispatch wire show iterate state req w).1
  unfolding dispatch handle_tasks_update
  update-Effect req w m = elim (Result-cases (params_as wire.update_task_params req)) [
    | inr (x, q) ↦ stays (rw (route-update wire show iterate state req m, q) refl)
    | inl (p, q) ↦ updates p (
        ap (λ (r : Response × W). r.1) (dispatch-update wire show iterate state req w p m q)
        ∙ answered_state req (state.store.update p w))
  ]

  cancel-Effect :
      (req : Request) (w : W)
      → req.method ≡ method_cancel
      → Effect w (dispatch wire show iterate state req w).1
  unfolding dispatch handle_tasks_cancel
  cancel-Effect req w m = elim (Result-cases (params_as wire.cancel_task_params req)) [
    | inr (x, q) ↦ stays (rw (route-cancel wire show iterate state req m, q) refl)
    | inl (p, q) ↦ cancels p.task_id (
        ap (λ (r : Response × W). r.1) (dispatch-cancel wire show iterate state req w p m q)
        ∙ answered_state req (state.store.cancel p.task_id w))
  ]

  call-Effect :
      (req : Request) (w : W)
      → req.method ≡ method_call
      → Effect w (dispatch wire show iterate state req w).1
  call-Effect req w m = elim (dispatch-ToolCall wire show iterate state req w m) [
    | unreadable x q e ↦ stays (ap (λ (r : Response × W). r.1) e)
    | unknown p q g e ↦ stays (ap (λ (r : Response × W). r.1) e)
    | called p entry q g e ↦ calls entry p g (ap (λ (r : Response × W). r.1) e)
  ]

  known-Effect :
      (req : Request) (w : W)
      → IsKnown req.method
      → Effect w (dispatch wire show iterate state req w).1
  known-Effect req w (inl m) = stays (discover_state req w m)
  known-Effect req w (inr (inl m)) = stays (list_state req w m)
  known-Effect req w (inr (inr (inl m))) = call-Effect req w m
  known-Effect req w (inr (inr (inr (inl m)))) = get-Effect req w m
  known-Effect req w (inr (inr (inr (inr (inl m))))) = update-Effect req w m
  known-Effect req w (inr (inr (inr (inr (inr m))))) = cancel-Effect req w m

  -- Whatever the request, `dispatch` changes the state by one call of the store's `get`, `update` or
  -- `cancel`, or by one call of a registered tool, or not at all; it never inserts a task itself.
  pub dispatch-Effect :
      (req : Request) (w : W) → Effect w (dispatch wire show iterate state req w).1
  dispatch-Effect req w = elim (IsKnown-cases req.method) [
    | inl known ↦ known-Effect req w known
    | inr other ↦
        stays
          (ap (λ (r : Response × W). r.1) (dispatch_of_unknown wire show iterate state req w other))
  ]
