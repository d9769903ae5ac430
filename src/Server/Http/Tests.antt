-- ===== src/Server/Http/Tests.antt =====
-- A request whose header names another method than its body.
use longhaul.Base.{ℕ, suc, refl, true, ◌≡◌, ◌⊎◌, none, some, [], ◌∷◌}
use longhaul.Base.Dict
use longhaul.Base.Dict.{Dict}
use longhaul.Json.{string, object, field, end}
use longhaul.Json.Sample.{sample_methods}
use longhaul.Core.Http.{header_method, protocol_version}
use longhaul.Server.Http.Sample.{transport}
use longhaul.Server.Http.{
  HttpRequest, Service, text, mcp_method_check, mcp_response_headers, body_method, compare_methods,
  read_body, check_method, check_version, mcp_route,
}
use longhaul.Server.Http.Suite.{
  app, build_request, rejects_missing_version_header, rejects_wrong_version_header,
  accepts_correct_version_no_method_header, accepts_matching_method_header_and_body,
  rejects_mismatched_method_header, response_headers_layer_sets_mcp_protocol_version,
}
use longhaul.Server.Http.Checks.{
  Accepted, Refused, Judged, mcp_method_check_lem, mcp_route-version, inner,
}

abbrev post : Service transport ℕ
post req w = (record { status = 200; headers = []; payload = text "done" }, suc w)

-- the header says `tasks/get` and the body `tasks/cancel`
abbrev lying : HttpRequest transport
lying = record {
  http_method = "POST";
  path = "/mcp";
  headers = ("mcp-protocol-version", "2026-07-28") ∷ (header_method, "tasks/get") ∷ [];
  body = object (field "method" (string "tasks/cancel") end);
}

mcp_method_check_lem_example :
    Judged transport sample_methods post lying 0
      (mcp_method_check transport sample_methods post lying 0)
mcp_method_check_lem_example = mcp_method_check_lem transport sample_methods post lying 0

mcp_route-version_example :
    (((handed : HttpRequest transport) × Accepted transport sample_methods
          (inner transport sample_methods post)
          lying
          handed)
      × (Dict.get (mcp_route transport sample_methods post lying 0).0.headers "mcp-protocol-version"
          ≡ some protocol_version))
    ⊎ (Refused transport sample_methods (inner transport sample_methods post) lying
        × (Dict.get
              (mcp_route transport sample_methods post lying 0).0.headers
              "mcp-protocol-version"
            ≡ none)
        × ((mcp_route transport sample_methods post lying 0).1 ≡ 0))
mcp_route-version_example = mcp_route-version transport sample_methods post lying 0

-- the tests of the module pass
tests_pass :
    (rejects_missing_version_header ≡ true)
    × (rejects_wrong_version_header ≡ true)
    × (accepts_correct_version_no_method_header ≡ true)
    × (accepts_matching_method_header_and_body ≡ true)
    × (rejects_mismatched_method_header ≡ true)
    × (response_headers_layer_sets_mcp_protocol_version ≡ true)
unfolding rejects_missing_version_header rejects_wrong_version_header
    accepts_correct_version_no_method_header accepts_matching_method_header_and_body
    rejects_mismatched_method_header response_headers_layer_sets_mcp_protocol_version app
    build_request mcp_method_check mcp_response_headers check_version check_method read_body
    compare_methods body_method Dict.get Dict.insert
tests_pass = (refl, refl, refl, refl, refl, refl)
