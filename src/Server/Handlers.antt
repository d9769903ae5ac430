-- ===== src/Server/Handlers.antt =====
-- longhaul-server/src/handlers.rs and the state of lib.rs: the dispatch of a JSON-RPC request. `W`
-- is the state of the process that a request may change: the task store and what tools touch.
pub mod Routing
mod Codes
pub mod Envelope
pub mod TaskCalls
pub mod Refines
pub mod Effects
pub mod Idempotence
pub mod ToolCalls
pub mod Unordered
pub mod Sample
mod Tests
use longhaul.Base.{
  ◌-◌, ◌<◌, String, not, List, if◌then◌else◌, ◌<>◌, ◌==◌, Result, ok, err, ok_or, map_err,
}
use longhaul.Base.Int.{ℤ}
use longhaul.Base.Exec.{Exec, lift, pure, ◌>>=◌, ◌>>◌}
use longhaul.Base.Dict
use longhaul.Base.Dict.{Dict}
use longhaul.Json.{Value, object, string, field, end, Serde}
use longhaul.Core.Errors
use longhaul.Core.Errors.{method_not_found, internal_error}
use longhaul.Core.Discover.{DiscoverResult, method_discover}
use longhaul.Core.Jsonrpc.{Request, Response, params_as, success, failure}
use longhaul.Core.Tasks.{
  Task, as_str, GetTaskParams, UpdateTaskParams, CancelTaskParams, method_get, method_update,
  method_cancel,
}
use longhaul.Core.Tools.{ListToolsParams, ListToolsResult, CallToolParams, method_list, method_call}
use longhaul.Core.Tools.Outcome.{ToolCallOutcome}
use longhaul.Server.Store.{
  SqliteError, StoreError, not_found, illegal_transition, sqlite, lock_poisoned, TaskStore,
  display_store_error,
}
use longhaul.Server.Registry.{
  Registry, ToolEntry, ToolError, invalid_params, tool_failed, store, display_tool_error,
  list_result,
}
use longhaul.Server.Registry

-- `ServerState`
pub record ServerState (W : Type 0) : Type 0 where
  pub discover_result : DiscoverResult
  pub registry : Registry W
  pub store : TaskStore W

-- The conversions that serde derives for the parameters and results of the methods.
pub record Wire : Type 0 where
  pub discover_result : Serde DiscoverResult
  pub list_tools_params : Serde ListToolsParams
  pub list_tools_result : Serde ListToolsResult
  pub call_tool_params : Serde CallToolParams
  pub outcome : Serde ToolCallOutcome
  pub get_task_params : Serde GetTaskParams
  pub update_task_params : Serde UpdateTaskParams
  pub cancel_task_params : Serde CancelTaskParams
  pub task : Serde Task

-- a code and a message
abbrev pub RpcError : Type 0
RpcError = ℤ × String

abbrev pub bad_params : String → RpcError
bad_params e = (Errors.invalid_params, e)

abbrev pub internal : String → RpcError
internal e = (internal_error, e)

-- `show` is the `Display` of `rusqlite::Error`.
unfoldable pub store_err_to_rpc : (SqliteError → String) → StoreError → RpcError
store_err_to_rpc show (not_found id) = (Errors.invalid_params, "Task not found: " <> id)
store_err_to_rpc show (illegal_transition from to) =
    (Errors.invalid_params, "Illegal task transition: " <> as_str from <> " -> " <> as_str to)
store_err_to_rpc show (sqlite e) = (internal_error, display_store_error show (sqlite e))
store_err_to_rpc show lock_poisoned = (internal_error, display_store_error show lock_poisoned)

-- the closure of `map_err` in `handle_tools_call`
unfoldable pub tool_err_to_rpc : (SqliteError → String) → ToolError → RpcError
tool_err_to_rpc show (invalid_params msg) = (Errors.invalid_params, msg)
tool_err_to_rpc show (tool_failed m) = (internal_error, display_tool_error show (tool_failed m))
tool_err_to_rpc show (store e) = (internal_error, display_tool_error show (store e))

-- an action whose error is turned into another
abbrev pub with_error : {W A E F : Type 0} → (E → F) → Exec W E A → Exec W F A
with_error f m w = let (r, w') = m w in (map_err f r, w')

module _ {W : Type 0} (wire : Wire) (show : SqliteError → String)
    (iterate : Dict (ToolEntry W) → List (ToolEntry W)) (state : ServerState W) where
  abbrev pub Handler : Type 0
  Handler = Request → Exec W RpcError Response

  -- `serde_json::to_value(&x)` and `Response::success(req.id, value)`
  abbrev pub respond : {A : Type 0} → Serde A → A → Handler
  respond serde a req = do
    value ← lift (map_err internal (serde.to_value a))
    pure (success req.id value)

  -- `req.params_as()` with `map_err`
  abbrev pub parse : {P : Type 0} → Serde P → Request → Exec W RpcError P
  parse serde req = lift (map_err bad_params (params_as serde req))

  unfoldable pub handle_discover : Handler
  handle_discover = respond wire.discover_result state.discover_result

  unfoldable pub handle_tools_list : Handler
  handle_tools_list req = do
    parse wire.list_tools_params req
    respond wire.list_tools_result (list_result iterate state.registry) req

  unfoldable pub handle_tools_call : Handler
  handle_tools_call req = do
    params ← parse wire.call_tool_params req
    entry ← lift (
        ok_or (Registry.get state.registry params.name)
          (bad_params ("Unknown tool: " <> params.name)))
    outcome ←
        with_error (tool_err_to_rpc show)
          (entry.handler params.arguments params.input_responses params.request_state)
    respond wire.outcome outcome req

  unfoldable pub handle_tasks_get : Handler
  handle_tasks_get req = do
    params ← parse wire.get_task_params req
    task ← with_error (store_err_to_rpc show) (state.store.get params.task_id)
    respond wire.task task req

  unfoldable pub handle_tasks_update : Handler
  handle_tasks_update req = do
    params ← parse wire.update_task_params req
    task ← with_error (store_err_to_rpc show) (state.store.update params)
    respond wire.task task req

  unfoldable pub handle_tasks_cancel : Handler
  handle_tasks_cancel req = do
    params ← parse wire.cancel_task_params req
    task ← with_error (store_err_to_rpc show) (state.store.cancel params.task_id)
    respond wire.task task req

  unfoldable pub route : Handler
  route req =
      if req.method == method_discover
      then handle_discover req
      else if req.method == method_list
      then handle_tools_list req
      else if req.method == method_call
      then handle_tools_call req
      else if req.method == method_get
      then handle_tasks_get req
      else if req.method == method_update
      then handle_tasks_update req
      else if req.method == method_cancel
      then handle_tasks_cancel req
      else lift (err (method_not_found, "Method not found: " <> req.method))

  -- `resp.unwrap_or_else(…)`
  abbrev pub unwrap : Request → Result Response RpcError → Response
  unwrap req (ok response) = response
  unwrap req (err (code, msg)) = failure req.id (Errors.new code msg)

  unfoldable pub dispatch : Request → W → Response × W
  unfolding route
  dispatch req w = let (resp, w') = route req w in (unwrap req resp, w')

-- `health` and `ready`: the JSON bodies
pub health : Value
health = object (field "status" (string "ok") end)

pub ready : Value
ready = object (field "status" (string "ready") end)
