-- ===== src/Server/Router/Laws.antt =====
-- longhaul-server/src/router.rs: which requests get to `dispatch`, and what becomes of the others.
use longhaul.Base.{
  ◌≡◌, refl, sym, ◌⊎◌, inl, inr, some, eq_iff, ◌==◌, Bool-cases, Result, ok, Result-cases,
}
use longhaul.Base.Dict
use longhaul.Base.Dict.{Dict}
use longhaul.Json.{Value, ValueMethods}
use longhaul.Core.Jsonrpc.{Request, Response}
use longhaul.Server.Handlers.{health, ready}
use longhaul.Server.Http.{
  Transport, HttpRequest, HttpResponse, Service, json, mcp_route, mcp_response_headers,
  json_service,
}
use longhaul.Server.Http.Checks.{Accepted, mcp_method_check_lem, inner}
use longhaul.Server.Router.{Axum, post_dispatch, paths, build, answer_probe}

module _ (t : Transport) (methods : ValueMethods) {W : Type 0} (axum : Axum t W)
    (extract : HttpRequest t → Result Request (HttpResponse t)) (json_headers : Transport.Headers t)
    (dispatch : Request → W → Response × W) where
  abbrev pub dispatched : Service t W
  dispatched = post_dispatch t methods axum extract json_headers dispatch

  abbrev pub server : Service t W
  server = build t methods axum extract json_headers dispatch

  -- The request came to `dispatch`: it is a POST to `/mcp` that the layers have accepted, its body is
  -- a request, and the client gets the response with status 200.
  pub record Dispatched (req : HttpRequest t) (w : W) (r : HttpResponse t × W) : Type 0 where
    pub handed : HttpRequest t
    pub request : Request
    pub at_mcp : req.path ≡ "/mcp"
    pub accepted : Accepted t methods (inner t methods dispatched) req handed
    pub posted : handed.http_method ≡ "POST"
    pub read : extract handed ≡ ok request
    pub succeeded : r.0.status ≡ 200
    pub answered : r.0.payload ≡ json (dispatch request w).0
    pub state : r.1 ≡ (dispatch request w).1

  handed_lem :
      (req handed : HttpRequest t) (w : W)
      → req.path ≡ "/mcp"
      → Accepted t methods (inner t methods dispatched) req handed
      → Dispatched req w (inner t methods dispatched handed w)
        ⊎ ((inner t methods dispatched handed w).1 ≡ w)
  unfolding mcp_response_headers json_service
  handed_lem req handed w path a = elim (Bool-cases (handed.http_method == "POST")) [
    | inr other ↦
        inr ((axum.post_other _ handed w (λ q. cc ((eq_iff handed.http_method "POST").1 q))).1)
    | inl post ↦
        let posted = (eq_iff handed.http_method "POST").0 post in
        elim (Result-cases (extract handed)) [
          | inl (request, e) ↦
              rw
                (
                  (axum.post_matches (json_service t extract json_headers dispatch) handed w
                      posted),
                  e,
                  json_service,
                )
                (inl (record {
                  handed = handed;
                  request = request;
                  at_mcp = path;
                  accepted = a;
                  posted = posted;
                  read = e;
                  succeeded = refl;
                  answered = refl;
                  state = refl;
                }))
          | inr (rejection, e) ↦
              rw
                (
                  (axum.post_matches (json_service t extract json_headers dispatch) handed w
                      posted),
                  e,
                  json_service,
                )
                (inr refl)
        ]
  ]

  mcp_lem :
      (req : HttpRequest t) (w : W)
      → req.path ≡ "/mcp"
      → Dispatched req w (mcp_route t methods dispatched req w)
        ⊎ ((mcp_route t methods dispatched req w).1 ≡ w)
  unfolding mcp_route
  mcp_lem req w path = elim (mcp_method_check_lem t methods (inner t methods dispatched) req w) [
    | inr (_, _, _, same) ↦ inr same
    | inl (handed, a, e) ↦ rw e (handed_lem req handed w path a)
  ]

  abbrev probing : Value → Service t W
  probing = answer_probe t methods axum extract json_headers dispatch

  probe_keeps : (v : Value) (req : HttpRequest t) (w : W) → (axum.get_route (probing v) req w).1 ≡ w
  probe_keeps v = axum.get_keeps _ (λ req w. refl)

  found :
      (s : Service t W) (req : HttpRequest t) (w : W)
      → Dict.get (paths t methods axum extract json_headers dispatch) req.path ≡ some s
      → server req w ≡ s req w
  unfolding build
  found s req w e = axum.routes_found (paths t methods axum extract json_headers dispatch) s req w e

  -- a request to `/mcp` goes through the layers
  pub build-mcp :
      (req : HttpRequest t) (w : W)
      → req.path ≡ "/mcp"
      → server req w ≡ mcp_route t methods dispatched req w
  unfolding Dict.get
  build-mcp req w path = found (mcp_route t methods dispatched) req w (rw path refl)

  -- A request changes the state only by way of `dispatch`: it is a POST to `/mcp` that the layers
  -- have accepted and whose body is a request, and then it is answered with status 200 and the
  -- response of `dispatch`; every other request leaves the state as it was.
  pub build-Dispatched :
      (req : HttpRequest t) (w : W) → Dispatched req w (server req w) ⊎ ((server req w).1 ≡ w)
  unfolding Dict.get build
  build-Dispatched req w = elim (Bool-cases ("/health" == req.path)) [
    | inl a ↦
        inr (
          rw (found (axum.get_route (probing health)) req w (rw a refl)) (probe_keeps health req w))
    | inr a ↦ elim (Bool-cases ("/ready" == req.path)) [
      | inl b ↦ inr (
          rw (found (axum.get_route (probing ready)) req w (rw (a, b) refl))
            (probe_keeps ready req w))
      | inr b ↦ elim (Bool-cases ("/mcp" == req.path)) [
        | inl c ↦
            rw (found (mcp_route t methods dispatched) req w (rw (a, b, c) refl))
              (mcp_lem req w (sym ((eq_iff "/mcp" req.path).0 c)))
        | inr c ↦ inr (
            (axum.routes_lost (paths t methods axum extract json_headers dispatch) req w
              (rw (a, b, c) refl)).1)
      ]
    ]
  ]
