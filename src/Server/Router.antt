-- ===== src/Server/Router.antt =====
-- longhaul-server/src/router.rs: `build`. What axum does with methods and paths is the parameter
-- `Axum`.
pub mod Laws
pub mod Sample
mod Tests
use longhaul.Base.{◌≡◌, ◌≢◌, none, some, [], ◌∷◌, Result}
use longhaul.Base.Dict
use longhaul.Base.Dict.{Dict}
use longhaul.Json.{Value, ValueMethods}
use longhaul.Core.Jsonrpc.{Request, Response}
use longhaul.Server.Handlers.{health, ready}
use longhaul.Server.Http.{
  Transport, HttpRequest, HttpResponse, Service, probe, mcp_route, json_service,
}

pub record Axum (t : Transport) (W : Type 0) : Type 0 where
  -- `get(…)` and `post(…)`
  pub get_route : Service t W → Service t W
  pub post_route : Service t W → Service t W
  -- `Router::new().route(…)`, for the paths in turn
  pub routes : Dict (Service t W) → Service t W
  pub post_matches :
      (s : Service t W) (req : HttpRequest t) (w : W)
      → req.http_method ≡ "POST"
      → post_route s req w ≡ s req w
  -- any other method is answered without the handler
  pub post_other :
      (s : Service t W) (req : HttpRequest t) (w : W)
      → req.http_method ≢ "POST"
      → ((post_route s req w).0.status ≡ 405) × ((post_route s req w).1 ≡ w)
  pub get_matches :
      (s : Service t W) (req : HttpRequest t) (w : W)
      → req.http_method ≡ "GET"
      → get_route s req w ≡ s req w
  -- HEAD runs the handler too; there is no other way to the state
  pub get_keeps :
      (s : Service t W)
      → ((req : HttpRequest t) (w : W) → (s req w).1 ≡ w)
      → (req : HttpRequest t) (w : W) → (get_route s req w).1 ≡ w
  pub routes_found :
      (paths : Dict (Service t W)) (s : Service t W) (req : HttpRequest t) (w : W)
      → Dict.get paths req.path ≡ some s
      → routes paths req w ≡ s req w
  pub routes_lost :
      (paths : Dict (Service t W)) (req : HttpRequest t) (w : W)
      → Dict.get paths req.path ≡ none
      → ((routes paths req w).0.status ≡ 404) × ((routes paths req w).1 ≡ w)

module _ (t : Transport) (methods : ValueMethods) {W : Type 0} (axum : Axum t W)
    (extract : HttpRequest t → Result Request (HttpResponse t)) (json_headers : Transport.Headers t)
    (dispatch : Request → W → Response × W) where
  -- a handler of a probe
  abbrev pub answer_probe : Value → Service t W
  answer_probe v req w = (record { status = 200; headers = json_headers; payload = probe v }, w)

  -- `post(dispatch)`, which the two layers stand around
  abbrev pub post_dispatch : Service t W
  post_dispatch = axum.post_route (json_service t extract json_headers dispatch)

  abbrev pub paths : Dict (Service t W)
  paths =
      ("/health", axum.get_route (answer_probe health))
      ∷ ("/ready", axum.get_route (answer_probe ready))
      ∷ ("/mcp", mcp_route t methods post_dispatch)
      ∷ []

  unfoldable pub build : Service t W
  build = axum.routes paths
