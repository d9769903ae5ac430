-- ===== src/Server/Handlers/Unordered.antt =====
-- The order in which a `HashMap` is visited is not visible in any answer.
use longhaul.Base.{String, ◌≡◌, refl, inl, inr, List, eq_iff, ◌==◌, Bool-cases}
use longhaul.Base.Dict.{Dict}
use longhaul.Core.Tools.{method_list}
use longhaul.Core.Jsonrpc.{Request}
use longhaul.Server.Store.{SqliteError}
use longhaul.Server.Registry.{ToolEntry}
use longhaul.Server.Registry.Listing.{VisitsOnce}
use longhaul.Server.Handlers.{
  ServerState, Wire, dispatch, route, handle_discover, handle_tools_call, handle_tasks_get,
  handle_tasks_update, handle_tasks_cancel,
}
use longhaul.Server.Handlers.ToolCalls.{dispatch-list_unique}

module _ {W : Type 0} (wire : Wire) (show : SqliteError → String)
    (iterate iterate' : Dict (ToolEntry W) → List (ToolEntry W)) (state : ServerState W)
    (once : VisitsOnce iterate state.registry.tools)
    (once' : VisitsOnce iterate' state.registry.tools) where
  -- Two processes whose maps are visited in other orders answer every request alike.
  pub dispatch_unordered :
      (req : Request) (w : W)
      → dispatch wire show iterate state req w ≡ dispatch wire show iterate' state req w
  unfolding dispatch route handle_discover handle_tools_call handle_tasks_get handle_tasks_update
      handle_tasks_cancel
  dispatch_unordered req w = elim (Bool-cases (req.method == method_list)) [
    | inl m ↦
        dispatch-list_unique wire show iterate iterate' state once once' req w
          ((eq_iff req.method method_list).0 m)
    | inr m ↦ rw m refl
  ]
