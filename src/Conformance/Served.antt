-- ===== src/Conformance/Served.antt =====
-- The runner against the modelled server: `Conformance.call` sends its request through the router, the
-- layers and the dispatch of longhaul-server.
use longhaul.Base.{
  String, ◌≡◌, refl, ◌∙◌, true, ◌&&◌, some, List, eq_refl, ltb, leb, Result, ok, err,
}
use longhaul.Json.{Value, ValueMethods}
use longhaul.Core.Tag.{tag}
use longhaul.Core.Http.{header_method, header_protocol_version, protocol_version}
use longhaul.Core.Jsonrpc.{Request, Response, number}
use longhaul.Core.Tools.Outcome.{option_and_then}
use longhaul.Base.Int.{pos}
use longhaul.Server.Http.{
  Transport, HttpRequest, HttpResponse, Service, Payload, text, json, probe, mcp_route,
  mcp_method_check, mcp_response_headers, check_version, check_method, read_body, compare_methods,
  body_method, body_limit, json_service,
}
use longhaul.Server.Router.{Axum, build, post_dispatch}
use longhaul.Server.Router.Laws.{build-mcp}
use longhaul.Conformance.{Host, call, request_body, client_headers}

-- the request that the server reads from the body of a call
abbrev pub sent : String → Value → Request
sent method params = record {
  jsonrpc = tag;
  id = number (pos 1);
  method = method;
  params = some params;
}

-- What reqwest sends and axum reads, beside the transport.
pub record Client (t : Transport) (methods : ValueMethods) : Type 1 where
  pub build : List (String × String) → Value → HttpRequest t
  -- the JSON text of a value is within the limit of the server
  pub Fits : Value → Type 0
  -- the extractor `Json<Request>`, with its rejection
  pub extract : HttpRequest t → Result Request (HttpResponse t)
  pub json_headers : Transport.Headers t
  pub sends_version :
      (m : String) (v : Value)
      → (h : Transport.HeaderValue t) × (Transport.get t
            (build (client_headers m) v).headers
            header_protocol_version
          ≡ some h)
        × (Transport.same_text t h protocol_version ≡ true)
  pub sends_method :
      (m : String) (v : Value)
      → (h : Transport.HeaderValue t) × (Transport.get t
            (build (client_headers m) v).headers
            header_method
          ≡ some h)
        × (Transport.to_str t h ≡ some m)
  pub sends_body :
      (m : String) (v : Value)
      → Fits v
      → (b : Transport.Bytes t) × (Transport.to_bytes t
            (build (client_headers m) v).body
            (body_limit t)
          ≡ some b)
        × (Transport.from_slice t b ≡ ok v)
  pub posts : (m : String) (v : Value) → (build (client_headers m) v).http_method ≡ "POST"
  pub to_mcp : (m : String) (v : Value) → (build (client_headers m) v).path ≡ "/mcp"
  -- `Value::get` finds a member of an object
  pub has_method :
      (m : String) (params : Value)
      → option_and_then (methods.get (request_body m params) "method") methods.as_str ≡ some m
  -- axum accepts the content type that the client sends, and serde reads the members of the envelope
  pub extracts :
      (b : Transport.Bytes t) (m : String) (params : Value)
      → Transport.from_slice t b ≡ ok (request_body m params)
      → extract (record (build (client_headers m) (request_body m params)) {
        body = Transport.from_bytes t b;
      })
        ≡ ok (sent m params)

module _ (t : Transport) (methods : ValueMethods) (c : Client t methods) {W : Type 0}
    (axum : Axum t W) (dispatch : Request → W → Response × W) where
  abbrev pub service : Service t W
  service = post_dispatch t methods axum c.extract c.json_headers dispatch

  abbrev pub server : Service t W
  server = build t methods axum c.extract c.json_headers dispatch

  abbrev read : Payload t → Result Response String
  read (json r) = ok r
  read (text s) = err "expected JSON"
  read (probe v) = err "expected a response"

  -- A host whose requests are answered by the server; the rest is as in `base`.
  abbrev pub served : Host W → Host W
  served base = record {
    Reply = HttpResponse t;
    send = λ url headers body w. (let (r, w') = server (c.build headers body) w in (ok r, w'));
    is_success = λ r. leb 200 r.status && ltb r.status 300;
    status_text = λ r. "status";
    read_response = λ r w. (read r.payload, w);
    elapsed = base.elapsed;
    new_uuid = base.new_uuid;
    validation = base.validation;
    schemas = base.schemas;
    response_value = base.response_value;
    show_int = base.show_int;
    debug = base.debug;
    debug_option = base.debug_option;
    show_value = base.show_value;
    is_array = base.is_array;
    is_number = base.is_number;
    is_string = base.is_string;
    contains = base.contains;
  }

  answered : HttpRequest t → Request → W → HttpResponse t × W
  answered req r w = (
    record {
      status = 200;
      headers = t.insert "mcp-protocol-version" (t.from_static protocol_version) c.json_headers;
      payload = json (dispatch r w).0;
    },
    (dispatch r w).1,
  )

  service_lem :
      (req : HttpRequest t) (r : Request) (w : W)
      → c.extract req ≡ ok r
      → req.http_method ≡ "POST"
      → mcp_response_headers t methods service req w ≡ answered req r w
  unfolding mcp_response_headers json_service answered
  service_lem req r w h posted =
      rw
        (
          (axum.post_matches (json_service t c.extract c.json_headers dispatch) req w posted),
          h,
          json_service,
        )
        refl

  route_lem :
      (method : String) (params : Value) (w : W)
      → c.Fits (request_body method params)
      → let req = c.build (client_headers method) (request_body method params) in
        mcp_route t methods service req w ≡ answered req (sent method params) w
  unfolding mcp_route mcp_method_check check_version check_method read_body compare_methods
      body_method answered
  route_lem method params w fits =
      let (hv, gv, same) = c.sends_version method (request_body method params) in
      let (hm, gm, names) = c.sends_method method (request_body method params) in
      let (b, bytes, parsed) = c.sends_body method (request_body method params) fits in
      rw (gv, same, gm, names, bytes, parsed, (c.has_method method params), (eq_refl method))
        (service_lem
          (record (c.build (client_headers method) (request_body method params)) {
            body = t.from_bytes b;
          })
          (sent method params) w (c.extracts b method params parsed)
          (c.posts method (request_body method params)))

  -- A call of the runner that fits in the limit passes the layers and is answered with what
  -- `dispatch` answers, in the state that it leaves.
  pub call-served :
      (base : Host W) (url method : String) (params : Value) (w : W)
      → c.Fits (request_body method params)
      → call (served base) url method params w
        ≡ (ok (dispatch (sent method params) w).0, (dispatch (sent method params) w).1)
  unfolding call answered
  call-served base url method params w fits =
      let body : Value = request_body method params in
      rw
        (build-mcp t methods axum c.extract c.json_headers dispatch
            (c.build (client_headers method) body) w (c.to_mcp method body)
          ∙ route_lem method params w fits)
        refl
