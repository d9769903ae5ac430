-- ===== src/Server/Router/Tests.antt =====
-- The router over the concrete transport: a probe, and a POST to `/mcp`.
use longhaul.Base.{ℕ, suc, String, ◌≡◌, refl, ◌⊎◌, none, [], ◌∷◌, Result, ok}
use longhaul.Core.Tag.{tag}
use longhaul.Core.Jsonrpc.{number, Request, Response, success}
use longhaul.Base.Int.{pos}
use longhaul.Base.Dict
use longhaul.Base.Dict.{Dict}
use longhaul.Json.{string, object, field, end}
use longhaul.Json.Sample.{sample_methods}
use longhaul.Server.Handlers.{health}
use longhaul.Server.Http.{HttpRequest, HttpResponse, probe}
use longhaul.Server.Http.Sample.{transport}
use longhaul.Server.Router.{build}
use longhaul.Server.Router.Sample.{axum}
use longhaul.Server.Router.Laws.{Dispatched, server, build-Dispatched}

abbrev extract : HttpRequest transport → Result Request (HttpResponse transport)
extract r = ok (record { jsonrpc = tag; id = number (pos 1); method = "tasks/get"; params = none })

-- the state counts the requests that were dispatched
abbrev dispatch : Request → ℕ → Response × ℕ
dispatch req w = (success req.id (object end), suc w)

abbrev req : String → String → HttpRequest transport
req method path = record {
  http_method = method;
  path = path;
  headers = ("mcp-protocol-version", "2026-07-28") ∷ [];
  body = object (field "method" (string "tasks/get") end);
}

healthy :
    build transport sample_methods axum extract [] dispatch (req "GET" "/health") 0
    ≡ (record { status = 200; headers = []; payload = probe health }, 0)
unfolding build Dict.get
healthy = refl

build-Dispatched_example :
    Dispatched transport sample_methods axum extract [] dispatch
      (req "POST" "/mcp")
      0
      (server transport sample_methods axum extract [] dispatch (req "POST" "/mcp") 0)
    ⊎ ((server transport sample_methods axum extract [] dispatch (req "POST" "/mcp") 0).1 ≡ 0)
build-Dispatched_example =
    build-Dispatched transport sample_methods axum extract [] dispatch (req "POST" "/mcp") 0
