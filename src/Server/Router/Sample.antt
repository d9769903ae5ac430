-- ===== src/Server/Router/Sample.antt =====
-- A concrete router over the concrete transport, with exact methods and paths, and posts to it.
use longhaul.Base.{
  ℕ, String, ◌≡◌, refl, ◌≢◌, inl, inr, Bool, false, Option, none, some, [], ◌∷◌, eq_iff,
  if◌then◌else◌, ◌==◌, Bool-cases, Result, ok, err,
}
use longhaul.Base.Dict
use longhaul.Base.Dict.{Dict}
use longhaul.Base.Int.{pos}
use longhaul.Json.{Value, string, object, field, end, number, integer}
use longhaul.Core.Tag.{tag}
use longhaul.Core.Jsonrpc
use longhaul.Core.Jsonrpc.{Request}
use longhaul.Server.Http.{HttpRequest, HttpResponse, Service, text}
use longhaul.Server.Http.Sample.{transport}
use longhaul.Server.Router.{Axum}

abbrev pub empty_response : ℕ → HttpResponse transport
empty_response status = record { status = status; headers = []; payload = text "" }

module _ {W : Type 0} where
  abbrev pub on_method : String → Service transport W → Service transport W
  on_method name s req w = if req.http_method == name then s req w else (empty_response 405, w)

  pub on_method_lem :
      (name : String) (s : Service transport W) (req : HttpRequest transport) (w : W)
      → req.http_method ≡ name
      → on_method name s req w ≡ s req w
  on_method_lem name s req w h = rw ((eq_iff req.http_method name).1 h) refl

  pub on_method_other :
      (name : String) (s : Service transport W) (req : HttpRequest transport) (w : W)
      → req.http_method ≢ name
      → ((on_method name s req w).0.status ≡ 405) × ((on_method name s req w).1 ≡ w)
  on_method_other name s req w h = elim (Bool-cases (req.http_method == name)) [
    | inl same ↦ absurd (h ((eq_iff req.http_method name).0 same))
    | inr other ↦ rw other (refl, refl)
  ]

  pub on_method_keeps :
      (name : String) (s : Service transport W)
      → ((req : HttpRequest transport) (w : W) → (s req w).1 ≡ w)
      → (req : HttpRequest transport) (w : W) → (on_method name s req w).1 ≡ w
  on_method_keeps name s keeps req w = elim (Bool-cases (req.http_method == name)) [
    | inl same ↦ rw same (keeps req w)
    | inr other ↦ rw other refl
  ]

  abbrev pub at_path : Option (Service transport W) → Service transport W
  at_path none req w = (empty_response 404, w)
  at_path (some s) req w = s req w

  abbrev pub axum : Axum transport W
  axum = record {
    get_route = on_method "GET";
    post_route = on_method "POST";
    routes = λ paths req. at_path (Dict.get paths req.path) req;
    post_matches = on_method_lem "POST";
    post_other = on_method_other "POST";
    get_matches = on_method_lem "GET";
    get_keeps = on_method_keeps "GET";
    routes_found = λ paths s req w h. rw h refl;
    routes_lost = λ paths req w h. rw h (refl, refl);
  }

-- reads the members of an envelope in their order
abbrev read_request : Value → Result Request (HttpResponse transport)
read_request (object (field _ _ (field _ _ (field _ (string m) (field _ params end))))) =
    ok (record { jsonrpc = tag; id = Jsonrpc.number (pos 1); method = m; params = some params })
read_request _ = err (record { status = 422; headers = []; payload = text "not a request" })

abbrev is_json : Option String → Bool
is_json none = false
is_json (some s) = s == "application/json"

-- refuses other content types
abbrev pub extract : HttpRequest transport → Result Request (HttpResponse transport)
extract req =
    if is_json (Dict.get req.headers "content-type")
    then read_request req.body
    else err (record { status = 415; headers = []; payload = text "not JSON" })

abbrev pub post : String → Value → HttpRequest transport
post method params = record {
  http_method = "POST";
  path = "/mcp";
  headers = ("content-type", "application/json") ∷ ("mcp-protocol-version", "2026-07-28") ∷ [];
  body = object (
      field "jsonrpc" (string "2.0") (
        field "id" (number (integer (pos 1)))
          (field "method" (string method) (field "params" params end))));
}
