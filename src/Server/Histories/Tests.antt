-- ===== src/Server/Histories/Tests.antt =====
-- A probe, a cancellation, a request for an unknown method and a GET, to a server over a memory store.
use longhaul.Base.{
  ◌≡◌, refl, sym, inl, inr, true, false, some, List, [], ◌∷◌, ◌==◌, Bool-cases, some_injective,
}
use longhaul.Base.Dict
use longhaul.Json.{string, object, field, end}
use longhaul.Json.Sample.{sample_methods}
use longhaul.Core.Tasks.{Task, new, method_cancel, is_terminal}
use longhaul.Server.Store.Memory.{MemoryStore}
use longhaul.Server.Store.Refines.{memory_view, memory_store-Implements}
use longhaul.Server.Store.Contract.Histories.{Progressed}
use longhaul.Core.Tasks.Lifecycle.{Follows-refl}
use longhaul.Server.Registry
use longhaul.Server.Http.{HttpRequest}
use longhaul.Server.Http.Sample.{transport}
use longhaul.Server.Router.Sample.{axum, extract, post}
use longhaul.Server.Handlers.Sample.{wire, show, state}
use longhaul.Server.Histories.{serve_all, serve, ToolsProgress, serve_all-Progressed}

abbrev job : Task
job = new "job"

abbrev shelf : MemoryStore
shelf = record { tasks = ("job", job) ∷ []; poisoned = false }

tools : ToolsProgress wire show Dict.values state memory_view (λ t. t) memory_store-Implements "job"
unfolding Registry.get Dict.get
tools entry p found w task h = elim (Bool-cases ("grep" == p.name)) [
  | inl a ↦ rw (sym (some_injective (rw a at found))) (task, h, Follows-refl task)
  | inr a ↦ elim (Bool-cases ("add" == p.name)) [
    | inl b ↦ rw (sym (some_injective (rw (a, b) at found))) (task, h, Follows-refl task)
    | inr b ↦ cc (rw (a, b) at found)
  ]
]

abbrev probing : HttpRequest transport
probing = record { http_method = "GET"; path = "/health"; headers = []; body = object end }

abbrev reqs : List (HttpRequest transport)
reqs =
    probing
    ∷ post method_cancel (object (field "taskId" (string "job") end))
    ∷ post "tasks/list" (object end)
    ∷ record (post "tasks/get" (object end)) { http_method = "GET" }
    ∷ []

serve_all-Progressed_example :
    let after =
      (serve_all
        (serve wire show Dict.values state memory_view
          (λ t. t)
          memory_store-Implements
          transport
          sample_methods
          axum
          extract
          [])
        reqs
        shelf).1 in
    Progressed "job" job (memory_view after)
    × (is_terminal job.status ≡ true → memory_view after "job" ≡ some job)
unfolding Dict.get
serve_all-Progressed_example =
    serve_all-Progressed wire show Dict.values state memory_view (λ t. t) memory_store-Implements
      transport sample_methods axum extract [] "job" reqs shelf job tools refl
