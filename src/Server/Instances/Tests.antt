-- ===== src/Server/Instances/Tests.antt =====
-- Two instances that visit their maps in opposite orders, over one file.
use longhaul.Base.{
  ℕ, zero, suc, String, ◌≡◌, refl, sym, inl, inr, false, List, [], ◌∷◌, map, ◌==◌, Bool-cases,
  some_injective,
}
use longhaul.Base.Dict
use longhaul.Base.Dict.{Dict}
use longhaul.Json.{Value, string, object, field, end}
use longhaul.Json.Sample.{sample_methods}
use longhaul.Core.Tasks.{method_get, method_update, method_cancel}
use longhaul.Core.Tools.{method_list}
use longhaul.Server.Store.Sqlite.{Store}
use longhaul.Server.Store.Sqlite.Rows.{rows}
use longhaul.Server.Registry
use longhaul.Server.Registry.{ToolEntry}
use longhaul.Server.Registry.Listing.{VisitsOnce}
use longhaul.Server.Registry.Sample.{two, backwards, forwards_once, backwards_once}
use longhaul.Server.Http.{HttpRequest, Service}
use longhaul.Server.Http.Sample.{transport}
use longhaul.Server.Histories.{serve_all}
use longhaul.Server.Router.Sample.{axum, extract, post}
use longhaul.Server.Handlers.Sample.{wire, show, state}
use longhaul.Server.Instances
use longhaul.Server.Instances.{Cluster, take_turns, route_all, ToolsKeepLock, route_all-serve_all}

abbrev orders : ℕ → Dict (ToolEntry (Store rows)) → List (ToolEntry (Store rows))
orders zero = Dict.values
orders (suc n) = backwards

once : (i : ℕ) → VisitsOnce (orders i) two.tools
once zero = forwards_once
once (suc n) = backwards_once

tools : ToolsKeepLock rows wire show state.discover_result two orders
unfolding Registry.get Dict.get
tools entry p found s = elim (Bool-cases ("grep" == p.name)) [
  | inl a ↦ rw (sym (some_injective (rw a at found))) refl
  | inr a ↦ elim (Bool-cases ("add" == p.name)) [
    | inl b ↦ rw (sym (some_injective (rw (a, b) at found))) refl
    | inr b ↦ cc (rw (a, b) at found)
  ]
]

abbrev cluster : Cluster (Dict String)
cluster = record { file = ("shared-task", "working") ∷ []; poisoned = λ i. false }

abbrev id : Value
id = object (field "taskId" (string "shared-task") end)

abbrev set : String → Value
set status = object (field "taskId" (string "shared-task") (field "status" (string status) end))

-- the life cycle of the integration test, and a listing
abbrev posts : List (HttpRequest transport)
posts =
    post method_get id
    ∷ post method_update (set "inputRequired")
    ∷ post method_get id
    ∷ post method_update (set "working")
    ∷ post method_update (set "completed")
    ∷ post method_get id
    ∷ post method_cancel id
    ∷ post method_list (object end)
    ∷ []

abbrev instance_of : ℕ → Service transport (Store rows)
instance_of =
    Instances.instance_of rows wire show state.discover_result two orders transport sample_methods
      axum extract []

abbrev reqs : List (ℕ × HttpRequest transport)
reqs = take_turns transport instance_of 0 posts

route_all-serve_all_example :
    let (alone, s) =
      serve_all
        (instance_of 0)
        (map (λ r. r.1) reqs)
        (record { db = cluster.file; poisoned = false }) in
    let (responses, c') = route_all transport instance_of reqs cluster in
    (responses ≡ alone) × (c'.file ≡ s.db)
route_all-serve_all_example =
    route_all-serve_all rows wire show state.discover_result two orders transport sample_methods
      axum extract [] reqs cluster once tools (λ i. refl)
