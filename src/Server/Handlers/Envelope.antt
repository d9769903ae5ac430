-- ===== src/Server/Handlers/Envelope.antt =====
-- What holds of every response of `dispatch`: its id, its error codes, and what stays unchanged.
use longhaul.Base.{
  String, ◌≡◌, refl, ◌⊎◌, inl, inr, some, List, Result, ok, err, ok_or, map_err, Result-cases, ◌<>◌,
  arith,
}
use longhaul.Base.Dict.{Dict}
use longhaul.Base.Exec.{Exec, ◌>>=◌}
use longhaul.Json.{Serde}
use longhaul.Core.Errors
use longhaul.Core.Errors.{ErrorObject, internal_error, method_not_found}
use longhaul.Core.Tasks.{Task}
use longhaul.Core.Jsonrpc.{Request, Response, params_as, success, error, failure}
use longhaul.Server.Store.{SqliteError, StoreError}
use longhaul.Server.Registry.{ToolEntry, ToolError, invalid_params, tool_failed, store}
use longhaul.Server.Registry
use longhaul.Server.Handlers.Routing.{
  IsKnown, IsKnown-cases, route-discover, route-list, route-call, route-get, route-update,
  route-cancel, route_of_unknown,
}
use longhaul.Server.Handlers.{
  ServerState, Wire, RpcError, bad_params, store_err_to_rpc, tool_err_to_rpc, respond,
  handle_tasks_get, handle_tools_list, handle_tools_call, route, parse, handle_discover, with_error,
  handle_tasks_update, handle_tasks_cancel, dispatch, unwrap,
}
use longhaul.Server.Handlers.Codes.{
  ErrsWell, AnswersWell, store_code, tool_code, ErrsWell-map_err, ErrsWell-ok_or, AnswersWell-bind,
  AnswersWell-then,
}

-- The code of an error object, as far as the server uses codes for a method.
abbrev pub CodeFor : String → ErrorObject → Type 0
CodeFor m e =
    (IsKnown m × ((e.code ≡ Errors.invalid_params) ⊎ (e.code ≡ internal_error)))
    ⊎ (¬ IsKnown m × (e.code ≡ method_not_found))

module _ {W : Type 0} (wire : Wire) (show : SqliteError → String)
    (iterate : Dict (ToolEntry W) → List (ToolEntry W)) (state : ServerState W) where
  respond-AnswersWell :
      {A : Type 0} (serde : Serde A) (a : A) (req : Request) (w : W)
      → AnswersWell req.id (respond wire show iterate state serde a req w).0
  unfolding success error
  respond-AnswersWell serde a req w = elim (Result-cases (serde.to_value a)) [
    | inl (v, q) ↦ rw q (refl, refl)
    | inr (m, q) ↦ rw q (inr refl)
  ]

  parse-ErrsWell :
      {P : Type 0} (serde : Serde P) (req : Request)
      → ErrsWell (map_err bad_params (params_as serde req))
  parse-ErrsWell serde req = ErrsWell-map_err bad_params _ (λ e. inl refl)

  -- the shape of the three handlers of tasks
  task_call-AnswersWell :
      {P : Type 0} (serde : Serde P) (call : P → Exec W StoreError Task) (req : Request) (w : W)
      → AnswersWell req.id
          ((parse wire show iterate state serde req >>= λ params.
              with_error (store_err_to_rpc show) (call params) >>= λ task.
              respond wire show iterate state wire.task task req)
            w).0
  task_call-AnswersWell serde call req w =
      AnswersWell-bind req.id (map_err bad_params (params_as serde req)) _ w
        (parse-ErrsWell serde req)
        (λ params v.
          AnswersWell-bind req.id _ _ _
            (ErrsWell-map_err (store_err_to_rpc show) (call params v).0 (store_code show))
            (λ task u. respond-AnswersWell wire.task task req u))

  list-AnswersWell :
      (req : Request) (w : W)
      → AnswersWell req.id (handle_tools_list wire show iterate state req w).0
  unfolding handle_tools_list
  list-AnswersWell req w =
      AnswersWell-then req.id (map_err bad_params (params_as wire.list_tools_params req)) _ w
        (parse-ErrsWell wire.list_tools_params req)
        (λ v. respond-AnswersWell wire.list_tools_result _ req v)

  call-AnswersWell :
      (req : Request) (w : W)
      → AnswersWell req.id (handle_tools_call wire show iterate state req w).0
  unfolding handle_tools_call
  call-AnswersWell req w =
      AnswersWell-bind req.id (map_err bad_params (params_as wire.call_tool_params req)) _ w
        (parse-ErrsWell wire.call_tool_params req)
        (λ params v.
          AnswersWell-bind req.id
            (ok_or (Registry.get state.registry params.name)
              (bad_params ("Unknown tool: " <> params.name)))
            _ v (ErrsWell-ok_or (Registry.get state.registry params.name) _)
            (λ entry u.
              AnswersWell-bind req.id _ _ _
                (ErrsWell-map_err (tool_err_to_rpc show)
                  (entry.handler params.arguments params.input_responses params.request_state u).0
                  (tool_code show))
                (λ outcome t. respond-AnswersWell wire.outcome outcome req t)))

  discover-AnswersWell :
      (req : Request) (w : W) → AnswersWell req.id (handle_discover wire show iterate state req w).0
  unfolding handle_discover
  discover-AnswersWell = respond-AnswersWell wire.discover_result state.discover_result

  get-AnswersWell :
      (req : Request) (w : W)
      → AnswersWell req.id (handle_tasks_get wire show iterate state req w).0
  unfolding handle_tasks_get
  get-AnswersWell = task_call-AnswersWell wire.get_task_params (λ p. state.store.get p.task_id)

  update-AnswersWell :
      (req : Request) (w : W)
      → AnswersWell req.id (handle_tasks_update wire show iterate state req w).0
  unfolding handle_tasks_update
  update-AnswersWell = task_call-AnswersWell wire.update_task_params state.store.update

  cancel-AnswersWell :
      (req : Request) (w : W)
      → AnswersWell req.id (handle_tasks_cancel wire show iterate state req w).0
  unfolding handle_tasks_cancel
  cancel-AnswersWell =
      task_call-AnswersWell wire.cancel_task_params (λ p. state.store.cancel p.task_id)

  route_of_IsKnown :
      (req : Request) (w : W)
      → IsKnown req.method
      → AnswersWell req.id (route wire show iterate state req w).0
  route_of_IsKnown req w (inl m) =
      rw (route-discover wire show iterate state req m) (discover-AnswersWell req w)
  route_of_IsKnown req w (inr (inl m)) =
      rw (route-list wire show iterate state req m) (list-AnswersWell req w)
  route_of_IsKnown req w (inr (inr (inl m))) =
      rw (route-call wire show iterate state req m) (call-AnswersWell req w)
  route_of_IsKnown req w (inr (inr (inr (inl m)))) =
      rw (route-get wire show iterate state req m) (get-AnswersWell req w)
  route_of_IsKnown req w (inr (inr (inr (inr (inl m))))) =
      rw (route-update wire show iterate state req m) (update-AnswersWell req w)
  route_of_IsKnown req w (inr (inr (inr (inr (inr m))))) =
      rw (route-cancel wire show iterate state req m) (cancel-AnswersWell req w)

  unwrap_code :
      (req : Request) (r : Result Response RpcError)
      → IsKnown req.method
      → AnswersWell req.id r
      → ((unwrap wire show iterate state req r).id ≡ req.id)
        × ((e : ErrorObject)
            → error (unwrap wire show iterate state req r) ≡ some e
            → CodeFor req.method e)
  unfolding failure error Errors.new
  unwrap_code req (ok r) k h = (h.0, λ e q. cc (h.1))
  unwrap_code req (err (code, m)) k h = (refl, λ e q. inl (k, ground arith))

  -- Every response carries the id of its request. If it is an error, the code is -32601 exactly
  -- for a method that the server does not have, and -32602 or -32603 for one that it has; then
  -- neither a store error nor a tool error leaks another code.
  pub id-dispatch :
      (req : Request) (w : W)
      → let response = (dispatch wire show iterate state req w).0 in
        (response.id ≡ req.id)
        × ((e : ErrorObject) → error response ≡ some e → CodeFor req.method e)
  unfolding dispatch failure error Errors.new
  id-dispatch req w = elim (IsKnown-cases req.method) [
    | inl k ↦ unwrap_code req _ k (route_of_IsKnown req w k)
    | inr u ↦
        rw (route_of_unknown wire show iterate state req w u) (refl, λ e q. inr (u, ground arith))
  ]

  -- A request for an unknown method changes nothing, not even the store, and is answered with the
  -- method's name in the message.
  pub dispatch_of_unknown :
      (req : Request) (w : W)
      → ¬ IsKnown req.method
      → dispatch wire show iterate state req w
        ≡ (failure req.id (Errors.method_not_found_error req.method), w)
  unfolding dispatch Errors.method_not_found_error
  dispatch_of_unknown req w u = rw (route_of_unknown wire show iterate state req w u)
