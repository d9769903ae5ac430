-- ===== src/Conformance/Passes/Whole.antt =====
-- The whole runner against a server over any store that keeps its contract and works.
use longhaul.Base.{String, ◌≡◌, refl, none, List, ◌<>◌, ok}
use longhaul.Base.Dict.{Dict}
use longhaul.Base.Int.{pos}
use longhaul.Json.{Value, object, end, ValueMethods}
use longhaul.Core.Jsonrpc.{number, success, params_as, result}
use longhaul.Core.Tools.{ListToolsParams}
use longhaul.Server.Store.{SqliteError}
use longhaul.Core.Tasks.{Task}
use longhaul.Server.Store.Contract.{View, Implements}
use longhaul.Server.Registry.{ToolEntry, list_result}
use longhaul.Server.Handlers.{ServerState, Wire, dispatch, handle_discover, handle_tools_list}
use longhaul.Server.Handlers.Routing.{route-discover, route-list}
use longhaul.Server.Http.{Transport}
use longhaul.Server.Router.{Axum}
use longhaul.Conformance.{Host, request_body}
use longhaul.Conformance.Suites.{run_main}
use longhaul.Conformance.Steady.{
  Returns, Discovers, Lists, run_discovery-Steady, run_tools-Steady, run_main_of_Steady,
}
use longhaul.Conformance.Served.{Client, sent}
use longhaul.Conformance.Passes.{
  Works, ReadsTaskCalls, Lacks, SuiteFits, host, answers, run_tasks-passes,
}

module _ {W : Type 0} (wire : Wire) (show : SqliteError → String)
    (iterate : Dict (ToolEntry W) → List (ToolEntry W)) (state : ServerState W) (view : W → View)
    (keep : Task → Task) (impl : Implements view state.store keep) (Sound : W → Type 0)
    (works : Works state.store Sound) (reads : ReadsTaskCalls wire) where
  discover_answer :
      (w : W) (v : Value)
      → wire.discover_result.to_value state.discover_result ≡ ok v
      → dispatch wire show iterate state (sent "server/discover" (object end)) w
        ≡ (success (number (pos 1)) v, w)
  unfolding dispatch handle_discover
  discover_answer w v written =
      rw
        (route-discover wire show iterate state (sent "server/discover" (object end)) refl, written)
        refl

  list_answer :
      (w : W) (p : ListToolsParams) (v : Value)
      → wire.list_tools_params.from_value (object end) ≡ ok p
      → wire.list_tools_result.to_value (list_result iterate state.registry) ≡ ok v
      → dispatch wire show iterate state (sent "tools/list" (object end)) w
        ≡ (success (number (pos 1)) v, w)
  unfolding dispatch handle_tools_list params_as
  list_answer w p v read written =
      rw (route-list wire show iterate state (sent "tools/list" (object end)) refl, read, written)
        refl

  module _ (t : Transport) (methods : ValueMethods) (axum : Axum t W) (c : Client t methods)
      (base : Host W) (url : String) where
    abbrev runner : Host W
    runner = host wire show iterate state view keep impl Sound works reads t methods axum c base url

    -- The server can write what it offers, in the shape of the types `DiscoverResult` and
    -- `ListToolsResult` and as the published schemas want it, and it can read the empty parameters of
    -- `tools/list`; the two bodies are within its limit.
    pub record Speaks : Type 0 where
      pub offer : Value
      pub offer_written : wire.discover_result.to_value state.discover_result ≡ ok offer
      pub discovers : Discovers methods runner url (success (number (pos 1)) offer) offer
      pub params : ListToolsParams
      pub reads_list : wire.list_tools_params.from_value (object end) ≡ ok params
      pub listing : Value
      pub listing_written :
          wire.list_tools_result.to_value (list_result iterate state.registry) ≡ ok listing
      pub lists : Lists methods runner url listing
      pub fits_discover : c.Fits (request_body "server/discover" (object end))
      pub fits_list : c.Fits (request_body "tools/list" (object end))

    returns :
        (method : String) (w : W) (v : Value)
        → c.Fits (request_body method (object end))
        → dispatch wire show iterate state (sent method (object end)) w
          ≡ (success (number (pos 1)) v, w)
        → Returns methods runner url method w (success (number (pos 1)) v) v
    unfolding success result
    returns method w v fits e =
        let response = success (number (pos 1)) v in
        (
          answers wire show iterate state view keep impl Sound works reads t methods axum c base url
              method (object end) w w response fits e,
          refl,
        )

    -- The runner without a filter exits with 0 on a server that can write what it offers in the
    -- published shapes, over any store that keeps its contract and does not fault, if no task has the
    -- fresh id of the task suite and the bodies are within the limit of the server.
    pub run_main-passes :
        (t0 : W)
        → Speaks
        → let (uuid, w0) = base.new_uuid t0 in
          Lacks wire show iterate state view keep impl Sound works reads ("conformance-" <> uuid) w0
          → SuiteFits wire show iterate state view keep impl Sound works reads t methods axum c base
              url
              ("conformance-" <> uuid)
          → (run_main methods runner url none t0).0.1 ≡ 0
    run_main-passes t0 speaks lacks fits =
        let discovery =
          run_discovery-Steady methods runner url t0 (success (number (pos 1)) speaks.offer)
            speaks.offer
            (returns "server/discover" t0 speaks.offer speaks.fits_discover
              (discover_answer t0 speaks.offer speaks.offer_written))
            speaks.discovers in
        let tools =
          run_tools-Steady methods runner url t0 (success (number (pos 1)) speaks.listing)
            speaks.listing
            (returns "tools/list" t0 speaks.listing speaks.fits_list (
              list_answer t0 speaks.params speaks.listing speaks.reads_list speaks.listing_written))
            speaks.lists in
        run_main_of_Steady methods runner url t0 discovery tools (
          run_tasks-passes wire show iterate state view keep impl Sound works reads t methods axum c
            base url t0 lacks fits)
