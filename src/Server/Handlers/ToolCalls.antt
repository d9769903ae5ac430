-- ===== src/Server/Handlers/ToolCalls.antt =====
-- The methods of the tools: `tools/call` on every branch, and `tools/list`.
use longhaul.Base.{
  String, ◌≡◌, refl, inl, inr, none, some, List, ◌<>◌, Option-cases, Result, ok, err, map_err,
  Result-cases,
}
use longhaul.Base.Dict.{Dict}
use longhaul.Core.Errors.{invalid_params, internal_error}
use longhaul.Core.Errors
use longhaul.Core.Tools.{CallToolParams, method_list, method_call}
use longhaul.Core.Tools.Outcome.{ToolCallOutcome}
use longhaul.Core.Jsonrpc.{Request, Response, params_as, failure}
use longhaul.Server.Store.{SqliteError}
use longhaul.Server.Registry.{
  ToolEntry, ToolError, tool_failed, store, display_tool_error, list_result,
}
use longhaul.Server.Registry
use longhaul.Server.Registry.Listing.{VisitsOnce, list_result_unique}
use longhaul.Server.Handlers.{
  ServerState, Wire, tool_err_to_rpc, dispatch, unwrap, handle_tools_call, handle_tools_list,
  respond, ◌>>=◌,
}
use longhaul.Server.Handlers.TaskCalls.{written}
use longhaul.Server.Handlers.Routing.{route-call, route-list}

module _ {W : Type 0} (wire : Wire) (show : SqliteError → String)
    (iterate : Dict (ToolEntry W) → List (ToolEntry W)) (state : ServerState W) where
  -- the response to what a tool has answered
  abbrev pub reply : Request → Result ToolCallOutcome ToolError → Response
  reply req (ok o) = written req (wire.outcome.to_value o)
  reply req (err (ToolError.invalid_params m)) = failure req.id (Errors.new invalid_params m)
  reply req (err (tool_failed m)) =
      failure req.id (Errors.new internal_error (display_tool_error show (tool_failed m)))
  reply req (err (store e)) =
      failure req.id (Errors.new internal_error (display_tool_error show (store e)))

  abbrev pub replied : Request → Result ToolCallOutcome ToolError × W → Response × W
  replied req r = (reply req r.0, r.1)

  -- the cases of a `tools/call`, each with its answer
  pub data ToolCall (req : Request) (w : W) (r : Response × W) : Type 0 where
    unreadable :
        (m : String)
        → params_as wire.call_tool_params req ≡ err m
        → r ≡ (failure req.id (Errors.new invalid_params m), w)
        → ToolCall req w r
    unknown :
        (p : CallToolParams)
        → params_as wire.call_tool_params req ≡ ok p
        → Registry.get state.registry p.name ≡ none
        → r ≡ (failure req.id (Errors.new invalid_params ("Unknown tool: " <> p.name)), w)
        → ToolCall req w r
    called :
        (p : CallToolParams) (entry : ToolEntry W)
        → params_as wire.call_tool_params req ≡ ok p
        → Registry.get state.registry p.name ≡ some entry
        → r ≡ replied req (entry.handler p.arguments p.input_responses p.request_state w)
        → ToolCall req w r

  reply_lem :
      (req : Request) (r : Result ToolCallOutcome ToolError × W)
      → (let (x, w) =
            ((λ (_ : W). (map_err (tool_err_to_rpc show) r.0, r.1)) >>= λ o.
            respond wire show iterate state wire.outcome o req)
              r.1 in
          (unwrap wire show iterate state req x, w))
        ≡ replied req r
  unfolding tool_err_to_rpc
  reply_lem req (ok o, w) = elim (Result-cases (wire.outcome.to_value o)) [
    | inl (v, q) ↦ rw q refl
    | inr (m, q) ↦ rw q refl
  ]
  reply_lem req (err (ToolError.invalid_params m), w) = refl
  reply_lem req (err (tool_failed m), w) = refl
  reply_lem req (err (store e), w) = refl

  pub dispatch_of_tool :
      (req : Request) (w : W) (p : CallToolParams) (entry : ToolEntry W)
      → req.method ≡ method_call
      → params_as wire.call_tool_params req ≡ ok p
      → Registry.get state.registry p.name ≡ some entry
      → dispatch wire show iterate state req w
        ≡ replied req (entry.handler p.arguments p.input_responses p.request_state w)
  unfolding dispatch handle_tools_call
  dispatch_of_tool req w p entry m q g =
      rw ((route-call wire show iterate state req m), q, g)
        (reply_lem req (entry.handler p.arguments p.input_responses p.request_state w))

  -- A `tools/call` with unreadable parameters or an unknown name is refused with -32602 and changes
  -- nothing; any other runs the tool's handler once, in the current state, and answers with its
  -- outcome, with -32602 where the tool blames its arguments, and with -32603 for its other errors.
  pub dispatch-ToolCall :
      (req : Request) (w : W)
      → req.method ≡ method_call
      → ToolCall req w (dispatch wire show iterate state req w)
  unfolding dispatch handle_tools_call
  dispatch-ToolCall req w m = elim (Result-cases (params_as wire.call_tool_params req)) [
    | inr (x, q) ↦ unreadable x q (rw ((route-call wire show iterate state req m), q) refl)
    | inl (p, q) ↦ elim (Option-cases (Registry.get state.registry p.name)) [
      | inl n ↦ unknown p q n (rw ((route-call wire show iterate state req m), q, n) refl)
      | inr (entry, g) ↦ called p entry q g (dispatch_of_tool req w p entry m q g)
    ]
  ]

-- The answer to `tools/list` does not depend on the order in which the registry's map is visited.
pub dispatch-list_unique :
    {W : Type 0} (wire : Wire) (show : SqliteError → String)
    (iterate iterate' : Dict (ToolEntry W) → List (ToolEntry W)) (state : ServerState W)
    → VisitsOnce iterate state.registry.tools
    → VisitsOnce iterate' state.registry.tools
    → (req : Request) (w : W) → req.method ≡ method_list
    → dispatch wire show iterate state req w ≡ dispatch wire show iterate' state req w
unfolding dispatch handle_tools_list
dispatch-list_unique wire show iterate iterate' state once once' req w m =
    rw
      (
        (route-list wire show iterate state req m),
        (route-list wire show iterate' state req m),
        (list_result_unique iterate iterate' state.registry once once'),
      )
      refl
