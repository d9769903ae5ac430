-- ===== src/Server/Http.antt =====
-- longhaul-server/src/middleware.rs: the checks in front of `dispatch` and the header on the
-- responses; of router.rs their order on the route `/mcp`. The types and methods of axum and of the
-- crate http are the parameter `Transport`.
pub mod Checks
pub mod Sample
pub mod Suite
mod Tests
use longhaul.Base.{
  ℕ, ◌-◌, ◌*◌, ◌<◌, String, ◌≡◌, Bool, not, Option, none, some, if◌then◌else◌, ◌<>◌, ◌==◌, Result,
  ok, err,
}
use longhaul.Json.{Value, ValueMethods}
use longhaul.Core.Http.{header_method, header_protocol_version, protocol_version}
use longhaul.Core.Jsonrpc.{Request, Response}
use longhaul.Core.Tools.Outcome.{option_and_then}

pub record Transport : Type 1 where
  pub Headers : Type 0
  pub HeaderValue : Type 0
  pub Body : Type 0
  pub Bytes : Type 0
  -- `HeaderMap::get` and `insert`, whose names do not depend on case
  pub get : Headers → String → Option HeaderValue
  pub insert : String → HeaderValue → Headers → Headers
  -- `HeaderValue::from_static`, `HeaderValue == str` and `to_str().ok()`
  pub from_static : String → HeaderValue
  pub same_text : HeaderValue → String → Bool
  pub to_str : HeaderValue → Option String
  -- `axum::body::to_bytes` with its limit, and `Body::from`
  pub to_bytes : Body → ℕ → Option Bytes
  pub from_bytes : Bytes → Body
  -- `serde_json::from_slice`
  pub from_slice : Bytes → Result Value String
  -- what `(StatusCode, String)` becomes: the headers of a plain text response
  pub text_headers : Headers
  -- the `{:?}` of a text
  pub debug : String → String
  -- an inserted header is found, under the same name in any case
  pub get-insert :
      (v : HeaderValue) (h : Headers)
      → get (insert "mcp-protocol-version" v h) header_protocol_version ≡ some v
  -- a response that is made from a text has a content type and no protocol version
  pub text_headers_plain : get text_headers header_protocol_version ≡ none

module _ (t : Transport) where
  open t use {
    Headers, HeaderValue, Body, Bytes, get, insert, from_static, same_text, to_str, to_bytes,
    from_bytes, from_slice, text_headers, debug,
  }

  pub record HttpRequest : Type 0 where
    pub http_method : String
    pub path : String
    pub headers : Headers
    pub body : Body

  -- the content of a response: a text, or a JSON value
  pub data Payload : Type 0 where
    text : String → Payload
    json : Response → Payload
    probe : Value → Payload

  pub record HttpResponse : Type 0 where
    pub status : ℕ
    pub headers : Headers
    pub payload : Payload

  -- What stands behind a layer: it answers a request and may change the state.
  abbrev pub Service : Type 0 → Type 0
  Service W = HttpRequest → W → HttpResponse × W

  -- `(StatusCode::BAD_REQUEST, message).into_response()`
  abbrev pub bad_request : String → HttpResponse
  bad_request m = record { status = 400; headers = text_headers; payload = text m }

  abbrev pub body_limit : ℕ
  body_limit = 4 * 1024 * 1024

  abbrev or_text : Option String → String → String
  or_text none d = d
  or_text (some s) d = s

  abbrev ok_of : {A E : Type 0} → Result A E → Option A
  ok_of (ok a) = some a
  ok_of (err e) = none

  module _ (methods : ValueMethods) {W : Type 0} (next : Service W) where
    -- the textual `method` of the body, if the body is JSON and has one
    unfoldable pub body_method : Bytes → Option String
    body_method bytes =
        option_and_then (ok_of (from_slice bytes))
          (λ v. option_and_then (methods.get v "method") methods.as_str)

    disagrees : String → String → String
    disagrees claimed bm =
        header_method
        <> " header ("
        <> debug claimed
        <> ") disagrees with body method ("
        <> debug bm
        <> ")"

    -- from `if let Some(bm) = body_method` on
    unfoldable pub compare_methods : String → Option String → HttpRequest → Service W
    unfolding disagrees
    compare_methods claimed none rebuilt req w = next rebuilt w
    compare_methods claimed (some bm) rebuilt req w =
        if not (bm == claimed) then (bad_request (disagrees claimed bm), w) else next rebuilt w

    unfoldable pub read_body : String → Option Bytes → Service W
    unfolding compare_methods
    read_body claimed none req w = (bad_request "Could not read request body", w)
    read_body claimed (some bytes) req w =
        compare_methods claimed (body_method bytes) (record req { body = from_bytes bytes }) req w

    -- from `if let Some(claimed_method) = method_header` on
    unfoldable pub check_method : Option String → Service W
    unfolding read_body
    check_method none req w = next req w
    check_method (some claimed) req w = read_body claimed (to_bytes req.body body_limit) req w

    unfoldable pub check_version : Option HeaderValue → Service W
    unfolding check_method
    check_version none req w =
        (bad_request ("Missing required header: " <> header_protocol_version), w)
    check_version (some v) req w =
        if not (same_text v protocol_version)
        then (
          bad_request (
              "Protocol version mismatch: expected "
              <> protocol_version
              <> ", got "
              <> or_text (to_str v) "<non-utf8>"),
          w,
        )
        else check_method (option_and_then (get req.headers header_method) to_str) req w

    unfoldable pub mcp_method_check : Service W
    unfolding check_version
    mcp_method_check req w = check_version (get req.headers header_protocol_version) req w

    unfoldable pub mcp_response_headers : Service W
    mcp_response_headers req w =
        let (response, w') = next req w in
        (
          record response {
            headers = insert "mcp-protocol-version" (from_static protocol_version) response.headers;
          },
          w',
        )

  -- The route `/mcp` of `build`: the outer layer checks, the inner one adds the header, and `post` is
  -- what they stand around.
  unfoldable pub mcp_route : ValueMethods → {W : Type 0} → Service W → Service W
  mcp_route methods post = mcp_method_check methods (mcp_response_headers methods post)

  -- `dispatch` as a handler: axum's `Json` reads the request, of which it looks at the content type
  -- and the body, or rejects it, and writes the response with status 200 and the headers of JSON.
  unfoldable pub json_service :
      (HttpRequest → Result Request HttpResponse)
      → Headers
      → {W : Type 0} → (Request → W → Response × W)
      → Service W
  json_service extract json_headers dispatch req w = elim (extract req) [
    | ok request ↦
        let (response, w') = dispatch request w in
        (record { status = 200; headers = json_headers; payload = json response }, w')
    | err rejection ↦ (rejection, w)
  ]
