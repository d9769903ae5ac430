-- ===== src/Server/Histories.antt =====
-- longhaul-server as its clients see it: HTTP requests, one after the other, to the router over a
-- store. Whatever they are, the tasks that the store shows keep to the life cycle.
mod Tests
use longhaul.Base.{◌-◌, String, ◌≡◌, ap, ◌∙◌, inl, inr, true, some, List, [], ◌∷◌, Result}
use longhaul.Base.Dict.{Dict}
use longhaul.Json.{ValueMethods}
use longhaul.Core.Tasks.{Task, is_terminal}
use longhaul.Core.Tasks.Lifecycle.{Follows, Follows-refl, Follows-trans, Follows-eq_of_terminal}
use longhaul.Core.Jsonrpc.{Request, Response}
use longhaul.Core.Tools.{CallToolParams}
use longhaul.Server.Store.{SqliteError}
use longhaul.Server.Store.Contract.{View, Implements}
use longhaul.Server.Store.Contract.Histories.{
  Op, get, update, cancel, Progressed, perform, perform-Progressed,
}
use longhaul.Server.Registry
use longhaul.Server.Registry.{ToolEntry}
use longhaul.Server.Handlers.{ServerState, Wire, dispatch}
use longhaul.Server.Handlers.Effects.{Effect, stays, gets, updates, cancels, calls, dispatch-Effect}
use longhaul.Server.Http.{Transport, HttpRequest, HttpResponse, Service}
use longhaul.Server.Router.{Axum}
use longhaul.Server.Router.Laws.{server, build-Dispatched}

-- the responses to some requests in turn, and the state after them
unfoldable pub serve_all :
    {t : Transport} {W : Type 0}
    → Service t W
    → List (HttpRequest t)
    → W
    → List (HttpResponse t) × W
serve_all serve [] w = ([], w)
serve_all serve (req ∷ reqs) w =
    let (response, w') = serve req w in
    let (responses, w'') = serve_all serve reqs w' in (response ∷ responses, w'')

module _ {W : Type 0} (wire : Wire) (show : SqliteError → String)
    (iterate : Dict (ToolEntry W) → List (ToolEntry W)) (state : ServerState W) (view : W → View)
    (keep : Task → Task) (impl : Implements view state.store keep) where
  -- The tools move the task of an id along its life cycle only; so does one that inserts tasks under
  -- other ids.
  abbrev pub ToolsProgress : String → Type 0
  ToolsProgress id =
      (entry : ToolEntry W) (p : CallToolParams)
      → Registry.get state.registry p.name ≡ some entry
      → (w : W) (task : Task) → view w id ≡ some task
      → Progressed id task (view (entry.handler p.arguments p.input_responses p.request_state w).1)

  Effect-Progressed :
      (id : String)
      → ToolsProgress id
      → (w w' : W) (task : Task) → view w id ≡ some task
      → Effect wire show iterate state w w'
      → Progressed id task (view w')
  unfolding perform
  Effect-Progressed id tools w w' task h (stays e) = (task, rw e h, Follows-refl task)
  Effect-Progressed id tools w w' task h (gets k e) =
      rw e (perform-Progressed view state.store keep impl id task (get k) w tt h)
  Effect-Progressed id tools w w' task h (updates p e) =
      rw e (perform-Progressed view state.store keep impl id task (update p) w tt h)
  Effect-Progressed id tools w w' task h (cancels k e) =
      rw e (perform-Progressed view state.store keep impl id task (cancel k) w tt h)
  Effect-Progressed id tools w w' task h (calls entry p found e) =
      rw e (tools entry p found w task h)

  module _ (t : Transport) (methods : ValueMethods) (axum : Axum t W)
      (extract : HttpRequest t → Result Request (HttpResponse t))
      (json_headers : Transport.Headers t) where
    abbrev pub serve : Service t W
    serve = server t methods axum extract json_headers (dispatch wire show iterate state)

    serve-Progressed :
        (id : String)
        → ToolsProgress id
        → (req : HttpRequest t) (w : W) (task : Task) → view w id ≡ some task
        → Progressed id task (view (serve req w).1)
    serve-Progressed id tools req w task h =
        elim (build-Dispatched t methods axum extract json_headers
          (dispatch wire show iterate state) req w) [
            | inr same ↦ (task, rw same h, Follows-refl task)
            | inl d ↦ rw d.state (
                Effect-Progressed id tools w _ task h
                  (dispatch-Effect wire show iterate state d.request w))
          ]

    history :
        (id : String)
        → ToolsProgress id
        → (reqs : List (HttpRequest t)) (w : W) (task : Task) → view w id ≡ some task
        → Progressed id task (view (serve_all serve reqs w).1)
    unfolding serve_all
    history id tools [] w task h = (task, h, Follows-refl task)
    history id tools (req ∷ reqs) w task h =
        let (u, here, f) = serve-Progressed id tools req w task h in
        let (t', there, g) = history id tools reqs (serve req w).1 u here in
        (t', there, Follows-trans f g)

    -- Over any store that keeps its contract and whatever HTTP requests arrive, well-formed or not, a
    -- task that was there is still there and has moved along the documented life cycle only, if the
    -- tools move it so; and once it is finished it stays as it is.
    pub serve_all-Progressed :
        (id : String) (reqs : List (HttpRequest t)) (w : W) (task : Task)
        → ToolsProgress id
        → view w id ≡ some task
        → Progressed id task (view (serve_all serve reqs w).1)
          × (is_terminal task.status ≡ true → view (serve_all serve reqs w).1 id ≡ some task)
    serve_all-Progressed id reqs w task tools h =
        let (t', there, f) = history id tools reqs w task h in
        ((t', there, f), λ done. there ∙ ap some (Follows-eq_of_terminal task t' done f))
