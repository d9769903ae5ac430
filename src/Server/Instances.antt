-- ===== src/Server/Instances.antt =====
-- Any number of server instances that share nothing but a database file, as in tests/stateless.rs: a
-- request may go to any of them. Each has its own connection, mutex and maps, so its maps may be
-- visited in an order of their own; a process that is started anew is an instance that was not used
-- before.
mod Tests
use longhaul.Base.{
  ℕ, ◌+◌, ◌-◌, ◌%◌, String, ◌≡◌, refl, sym, ap, ◌∙◌, fun_ext, inl, inr, Bool, false, some, List, [],
  ◌∷◌, map, if◌then◌else◌, Bool-cases, Result,
}
use mathlib.Core.Path.{ap₂}
use longhaul.Base.Int.{same_ℕ}
use longhaul.Base.Dict.{Dict}
use longhaul.Json.{ValueMethods}
use longhaul.Core.Discover.{DiscoverResult}
use longhaul.Core.Jsonrpc.{Request, Response}
use longhaul.Core.Tools.{CallToolParams}
use longhaul.Server.Store.{SqliteError}
use longhaul.Server.Store.Sqlite.Statements.{Engine}
use longhaul.Server.Store.Sqlite
use longhaul.Server.Store.Sqlite.{Store, sqlite_store}
use longhaul.Server.Store.Sqlite.Lock.{KeepsLock, get-KeepsLock, update-KeepsLock, cancel-KeepsLock}
use longhaul.Server.Registry
use longhaul.Server.Registry.{ToolEntry, Registry}
use longhaul.Server.Registry.Listing.{VisitsOnce}
use longhaul.Server.Handlers.{ServerState, Wire, dispatch}
use longhaul.Server.Handlers.Effects.{Effect, stays, gets, updates, cancels, calls, dispatch-Effect}
use longhaul.Server.Handlers.Unordered.{dispatch_unordered}
use longhaul.Server.Http.{Transport, HttpRequest, HttpResponse, Service}
use longhaul.Server.Histories.{serve_all}
use longhaul.Server.Router.{Axum, build}
use longhaul.Server.Router.Laws.{server, build-Dispatched}

-- the shared file, and which locks are poisoned
pub record Cluster (Db : Type 0) : Type 0 where
  pub file : Db
  pub poisoned : ℕ → Bool

module _ (t : Transport) {Db : Type 0} (serve : ℕ → Service t (Sqlite.SqliteStore Db)) where
  -- a request to the instance `i`
  abbrev serve_at : ℕ → HttpRequest t → Cluster Db → HttpResponse t × Cluster Db
  serve_at i req c =
      let (response, s) = serve i req (record { db = c.file; poisoned = c.poisoned i }) in
      (
        response,
        record { file = s.db; poisoned = λ j. if same_ℕ j i then s.poisoned else c.poisoned j },
      )

  -- `next_router!` of the integration test: the instances take turns, from `idx` on
  unfoldable pub take_turns : ℕ → List (HttpRequest t) → List (ℕ × HttpRequest t)
  take_turns idx [] = []
  take_turns idx (req ∷ reqs) = (idx % 2, req) ∷ take_turns (idx + 1) reqs

  -- requests with the instances that they go to
  unfoldable pub route_all :
      List (ℕ × HttpRequest t) → Cluster Db → List (HttpResponse t) × Cluster Db
  route_all [] c = ([], c)
  route_all ((i, req) ∷ reqs) c =
      let (response, c') = serve_at i req c in
      let (responses, c'') = route_all reqs c' in (response ∷ responses, c'')

module _ (e : Engine) (wire : Wire) (show : SqliteError → String) (discover_result : DiscoverResult)
    (registry : Registry (Store e))
    (iterate : ℕ → Dict (ToolEntry (Store e)) → List (ToolEntry (Store e))) where
  abbrev pub state : ServerState (Store e)
  state = record { discover_result = discover_result; registry = registry; store = sqlite_store e }

  -- the tools do not poison the lock of their instance
  abbrev pub ToolsKeepLock : Type 0
  ToolsKeepLock =
      (entry : ToolEntry (Store e)) (p : CallToolParams)
      → Registry.get registry p.name ≡ some entry
      → KeepsLock e (entry.handler p.arguments p.input_responses p.request_state)

  Effect-poisoned :
      (i : ℕ)
      → ToolsKeepLock
      → (s s' : Store e) → Effect wire show (iterate i) state s s'
      → s'.poisoned ≡ s.poisoned
  unfolding sqlite_store
  Effect-poisoned i tools s s' (stays q) = ap (λ (x : Store e). x.poisoned) q
  Effect-poisoned i tools s s' (gets id q) =
      ap (λ (x : Store e). x.poisoned) q ∙ get-KeepsLock e id s
  Effect-poisoned i tools s s' (updates p q) =
      ap (λ (x : Store e). x.poisoned) q ∙ update-KeepsLock e p s
  Effect-poisoned i tools s s' (cancels id q) =
      ap (λ (x : Store e). x.poisoned) q ∙ cancel-KeepsLock e id s
  Effect-poisoned i tools s s' (calls entry p found q) =
      ap (λ (x : Store e). x.poisoned) q ∙ tools entry p found s

  module _ (t : Transport) (methods : ValueMethods) (axum : Axum t (Store e))
      (extract : HttpRequest t → Result Request (HttpResponse t))
      (json_headers : Transport.Headers t) where
    -- the router of the instance `i`
    abbrev pub instance_of : ℕ → Service t (Store e)
    instance_of i =
        server t methods axum extract json_headers (dispatch wire show (iterate i) state)

    instance-poisoned :
        (i : ℕ)
        → ToolsKeepLock
        → (req : HttpRequest t) (s : Store e) → (instance_of i req s).1.poisoned ≡ s.poisoned
    instance-poisoned i tools req s =
        elim (build-Dispatched t methods axum extract json_headers
          (dispatch wire show (iterate i) state) req s) [
            | inr same ↦ ap (λ (x : Store e). x.poisoned) same
            | inl d ↦
                ap (λ (x : Store e). x.poisoned) d.state
                ∙ Effect-poisoned i tools s _
                    (dispatch-Effect wire show (iterate i) state d.request s)
          ]

    instances_alike :
        ((i : ℕ) → VisitsOnce (iterate i) registry.tools)
        → (i : ℕ) (req : HttpRequest t) (s : Store e) → instance_of i req s ≡ instance_of 0 req s
    instances_alike once i req s =
        ap
          (λ (d : Request → Store e → Response × Store e).
            build t methods axum extract json_headers d req s)
          (fun_ext (λ r. fun_ext (λ x.
            dispatch_unordered wire show (iterate i) (iterate 0) state (once i) (once 0) r x)))

    -- no thread has panicked under a lock
    abbrev pub IsClean : Cluster e.Db → Type 0
    IsClean c = (i : ℕ) → c.poisoned i ≡ false

    abbrev store_at : e.Db → Bool → Store e
    store_at d b = record { db = d; poisoned = b }

    same_store :
        (c : Cluster e.Db) (s : Store e) (i : ℕ)
        → IsClean c
        → s.poisoned ≡ false
        → c.file ≡ s.db
        → store_at c.file (c.poisoned i) ≡ s
    same_store c s i clean good file =
        ap₂ (λ (d : e.Db) (b : Bool). store_at d b) file (clean i ∙ sym good)

    routed :
        ((i : ℕ) → VisitsOnce (iterate i) registry.tools)
        → ToolsKeepLock
        → (reqs : List (ℕ × HttpRequest t)) (c : Cluster e.Db) (s : Store e) → IsClean c
        → s.poisoned ≡ false
        → c.file ≡ s.db
        → let (alone, s') = serve_all (instance_of 0) (map (λ r. r.1) reqs) s in
          let (responses, c') = route_all t instance_of reqs c in
          (responses ≡ alone) × (c'.file ≡ s'.db)
    unfolding route_all serve_all
    routed once tools [] c s clean good file = (refl, file)
    routed once tools ((i, req) ∷ reqs) c s clean good file =
        let first : store_at c.file (c.poisoned i) ≡ s = same_store c s i clean good file in
        let s' : Store e = (instance_of 0 req s).1 in
        let good' : s'.poisoned ≡ false = instance-poisoned 0 tools req s ∙ good in
        rw (first, instances_alike once i req s)
          (let (answers, files) =
              routed once tools reqs
                (record {
                  file = s'.db;
                  poisoned = λ j. if same_ℕ j i then s'.poisoned else c.poisoned j;
                })
                s'
                (λ j. elim (Bool-cases (same_ℕ j i)) [
                  | inl q ↦ rw q good'
                  | inr q ↦ rw q (clean j)
                ])
                good' refl in
            (ap (λ rest. (instance_of 0 req s).0 ∷ rest) answers, files))

    -- Statelessness: whichever instance each of some HTTP requests goes to, the responses are the ones
    -- that a single instance gives when it serves them all, and so is the file after them, if no
    -- lock is poisoned and no tool poisons one, in whatever order each instance visits its maps.
    pub route_all-serve_all :
        (reqs : List (ℕ × HttpRequest t)) (c : Cluster e.Db)
        → ((i : ℕ) → VisitsOnce (iterate i) registry.tools)
        → ToolsKeepLock
        → IsClean c
        → let (alone, s) =
            serve_all (instance_of 0) (map (λ r. r.1) reqs) (store_at c.file false) in
          let (responses, c') = route_all t instance_of reqs c in
          (responses ≡ alone) × (c'.file ≡ s.db)
    route_all-serve_all reqs c once tools clean =
        routed once tools reqs c (store_at c.file false) clean refl refl
