-- ===== src/Server/Http/Suite.antt =====
-- longhaul-server/src/middleware.rs, the module `tests`, over the concrete transport and router: each
-- test says whether all its assertions hold.
use longhaul.Base.{ℕ, String, Bool, false, ◌&&◌, Option, none, some, [], ◌∷◌, ◌==◌}
use longhaul.Base.Dict
use longhaul.Base.Int.{pos, same_ℕ}
use longhaul.Json.{Value, null, string, number, integer, object, field, end}
use longhaul.Json.Sample.{sample_methods}
use longhaul.Core.Http.{header_method, protocol_version, header_protocol_version}
use longhaul.Server.Http.{HttpRequest, Service, text, mcp_method_check, mcp_response_headers}
use longhaul.Server.Http.Sample.{transport}
use longhaul.Server.Router.Sample.{axum}

-- the handler `|| async { "ok" }`, and the router with its one path
abbrev ok_service : Service transport (Unit {0})
ok_service req w = (
  record {
    status = 200;
    headers = ("content-type", "text/plain; charset=utf-8") ∷ [];
    payload = text "ok";
  },
  w,
)

abbrev routed : Service transport (Unit {0})
routed = axum.routes (("/mcp", axum.post_route ok_service) ∷ [])

unfoldable pub app : Service transport (Unit {0})
unfolding mcp_method_check
app = mcp_method_check transport sample_methods routed

abbrev with_header : String → Option String → HttpRequest transport → HttpRequest transport
with_header name none req = req
with_header name (some v) req = record req { headers = transport.insert name v req.headers }

unfoldable pub build_request : Option String → Option String → Value → HttpRequest transport
unfolding Dict.insert
build_request method_header version_header body = with_header header_method method_header (
    with_header header_protocol_version version_header (record {
      http_method = "POST";
      path = "/mcp";
      headers = ("content-type", "application/json") ∷ [];
      body = body;
    }))

-- the status that the app answers
abbrev status_of : HttpRequest transport → ℕ
status_of req = (app req tt).0.status

abbrev call_body : String → Value
call_body method = object (field "method" (string method) end)

abbrev rpc_body : String → Value
rpc_body method = object (
    field "jsonrpc" (string "2.0")
      (field "id" (number (integer (pos 1))) (field "method" (string method) end)))

unfoldable pub rejects_missing_version_header : Bool
unfolding app
rejects_missing_version_header =
    same_ℕ (status_of (record { http_method = "POST"; path = "/mcp"; headers = []; body = null }))
      400

unfoldable pub rejects_wrong_version_header : Bool
unfolding app build_request
rejects_wrong_version_header =
    same_ℕ (status_of (build_request none (some "2025-01-01") (call_body "tools/list"))) 400

unfoldable pub accepts_correct_version_no_method_header : Bool
unfolding app build_request
accepts_correct_version_no_method_header =
    same_ℕ (status_of (build_request none (some protocol_version) (call_body "tools/list"))) 200

unfoldable pub accepts_matching_method_header_and_body : Bool
unfolding app build_request
accepts_matching_method_header_and_body =
    same_ℕ
      (status_of
        (build_request (some "tools/list") (some protocol_version) (rpc_body "tools/list")))
      200

unfoldable pub rejects_mismatched_method_header : Bool
unfolding app build_request
rejects_mismatched_method_header =
    same_ℕ
      (status_of
        (build_request (some "tools/list") (some protocol_version) (rpc_body "tools/call")))
      400

abbrev is_version : Option String → Bool
is_version none = false
is_version (some v) = v == protocol_version

unfoldable pub response_headers_layer_sets_mcp_protocol_version : Bool
unfolding build_request mcp_method_check mcp_response_headers Dict.get
response_headers_layer_sets_mcp_protocol_version =
    let layered =
      mcp_method_check transport sample_methods
        (mcp_response_headers transport sample_methods routed) in
    let req = build_request none (some protocol_version) (call_body "tools/list") in
    let resp = (layered req tt).0 in
    same_ℕ resp.status 200 && is_version (transport.get resp.headers "mcp-protocol-version")
