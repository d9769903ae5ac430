-- ===== src/Conformance/Passes/Tests.antt =====
-- The runner against an empty memory store, over the concrete transport.
use longhaul.Base.{
  Bool, String, ◌≡◌, refl, true, false, none, some, List, [], ◌∷◌, ◌==◌, ok, err, ok_injective,
}
use longhaul.Base.Dict
use longhaul.Base.Int.{pos}
use longhaul.Json.{Value, array, number, integer, Items, nil, cons, string, object, field, end}
use longhaul.Core.Discover.{DiscoverResult}
use longhaul.Json.Sample.{sample_methods}
use longhaul.Core.Http.{header_method, header_protocol_version, protocol_version}
use longhaul.Core.Tools.{Tool, ListToolsResult}
use longhaul.Server.Registry.{list_result}
use longhaul.Server.Http.{Transport, HttpRequest}
use longhaul.Server.Router.Sample.{axum, extract}
use longhaul.Server.Http.Sample.{lower, transport}
use longhaul.Server.Store.Status.{parse_status}
use longhaul.Server.Store.Memory.{MemoryStore}
use longhaul.Server.Store.Refines.{memory_view, memory_store-Implements}
use longhaul.Conformance.Passes.Memory.{IsClean, memory_store-Works}
use longhaul.Server.Handlers.Sample.{wire, show, state}
use longhaul.Conformance.Schema.{Validation, validate}
use longhaul.Conformance.{Host, request_body, client_headers}
use longhaul.Conformance.Suites.{run_main}
use longhaul.Conformance.Passes.Whole.{Speaks, run_main-passes}
use longhaul.Server.Handlers.{Wire}
use longhaul.Conformance.Served.{Client, sent}
use longhaul.Conformance.Passes.{ReadsTaskCalls, host}

abbrev lowered : List (String × String) → List (String × String)
lowered [] = []
lowered ((name, v) ∷ headers) = (lower name, v) ∷ lowered headers

sends_method :
    (m : String) (v : Value)
    → (h : String) × (Dict.get
          (lowered (
            ("content-type", "application/json")
            ∷ (header_protocol_version, protocol_version)
            ∷ (header_method, m)
            ∷ []))
          (lower header_method)
        ≡ some h)
      × (some h ≡ some m)
unfolding Dict.get
sends_method m v = (m, refl, refl)

sends_version :
    (m : String) (v : Value)
    → (h : String) × (Dict.get
          (lowered (
            ("content-type", "application/json")
            ∷ (header_protocol_version, protocol_version)
            ∷ (header_method, m)
            ∷ []))
          (lower header_protocol_version)
        ≡ some h)
      × ((h == protocol_version) ≡ true)
unfolding Dict.get
sends_version m v = (protocol_version, refl, refl)

-- the request with the headers of the client
abbrev posted : String → Value → HttpRequest transport
posted m v = record {
  http_method = "POST";
  path = "/mcp";
  headers = lowered (client_headers m);
  body = v;
}

extracts :
    (b : Value) (m : String) (params : Value)
    → Transport.from_slice transport b ≡ ok (request_body m params)
    → extract (posted m b) ≡ ok (sent m params)
unfolding Dict.get
extracts b m params h = rw (ok_injective h) refl

abbrev client : Client transport sample_methods
client = record {
  build = λ headers v. record {
    http_method = "POST";
    path = "/mcp";
    headers = lowered headers;
    body = v;
  };
  Fits = λ v. Unit {0};
  extract = extract;
  json_headers = ("content-type", "application/json") ∷ [];
  sends_version = sends_version;
  sends_method = sends_method;
  sends_body = λ m v fits. (v, refl, refl);
  posts = λ m v. refl;
  to_mcp = λ m v. refl;
  has_method = λ m params. refl;
  extracts = extracts;
}

abbrev validation : Validation
validation = record {
  Validator = Unit;
  from_str = λ s. err "unsupported";
  validator_for = λ v. ok tt;
  iter_errors = λ validator v. [];
}

abbrev is_array : Value → Bool
is_array (array items) = true
is_array _ = false

abbrev is_number : Value → Bool
is_number (number n) = true
is_number _ = false

abbrev is_string : Value → Bool
is_string (string s) = true
is_string _ = false

-- its identifiers, its clock and its schemas count; the requests go to the server
abbrev base : Host MemoryStore
base = record {
  Reply = Unit;
  send = λ url headers body w. (err "unsupported", w);
  is_success = λ r. false;
  status_text = λ r. "no server";
  read_response = λ r w. (err "unsupported", w);
  elapsed = λ t0 t1. 1;
  new_uuid = λ w. ("1", w);
  validation = validation;
  schemas = record {
    validators =
        ("jsonrpc_response", tt) ∷ ("tools_list_result", tt) ∷ ("discover_result", tt) ∷ [];
  };
  response_value = λ r. ok (object end);
  show_int = λ n. "n";
  debug = λ s. s;
  debug_option = λ o. "none";
  show_value = λ v. "value";
  is_array = is_array;
  is_number = is_number;
  is_string = is_string;
  contains = λ name filter. name == filter;
}

abbrev empty : MemoryStore
empty = record { tasks = []; poisoned = false }

nothing : Dict.get empty.tasks "conformance-1" ≡ none
unfolding Dict.get
nothing = refl

-- the conversions of what the server offers and lists
abbrev offer_value : DiscoverResult → Value
offer_value d = object (field "protocolVersion" (string d.protocol_version) end)

abbrev items_of : List Tool → Items
items_of [] = nil
items_of (tool ∷ tools) = cons (object (field "name" (string tool.name) end)) (items_of tools)

abbrev listing_value : ListToolsResult → Value
listing_value r = object (
    field "tools" (array (items_of r.tools))
      (field "ttlMs" (number (integer (pos 60_000))) (field "cacheScope" (string "session") end)))

abbrev speaking : Wire
speaking = record wire {
  discover_result = record {
    to_value = λ d. ok (offer_value d);
    from_value = λ v. err "unsupported";
  };
  list_tools_result = record {
    to_value = λ r. ok (listing_value r);
    from_value = λ v. err "unsupported";
  };
}

speaking_reads : ReadsTaskCalls speaking
unfolding parse_status
speaking_reads = record {
  reads_get = λ id. refl;
  reads_cancel = λ id. refl;
  reads_update = λ id. refl;
}

abbrev url : String
url = "http://localhost:3000"

speaks :
    Speaks speaking show Dict.values state memory_view
      (λ t. t)
      memory_store-Implements
      IsClean
      memory_store-Works
      speaking_reads
      transport
      sample_methods
      axum
      client
      base
      url
unfolding validate Dict.get
speaks = record {
  offer = offer_value state.discover_result;
  offer_written = refl;
  discovers = record {
    version = protocol_version;
    versioned = refl;
    pinned = refl;
    valid = refl;
    envelope = object end;
    enveloped = refl;
    valid_envelope = refl;
  };
  params = record { cursor = none; meta = none };
  reads_list = refl;
  listing = listing_value (list_result Dict.values state.registry);
  listing_written = refl;
  lists = record {
    tools = items_of (list_result Dict.values state.registry).tools;
    has_tools = refl;
    is_array = refl;
    ttl = integer (pos 60_000);
    has_ttl = refl;
    is_number = refl;
    scope = "session";
    has_scope = refl;
    is_string = refl;
    valid = refl;
  };
  fits_discover = tt;
  fits_list = tt;
}

run_main-passes_example :
    (run_main sample_methods
      (host speaking show Dict.values state memory_view
        (λ t. t)
        memory_store-Implements
        IsClean
        memory_store-Works
        speaking_reads
        transport
        sample_methods
        axum
        client
        base
        url)
      url
      none
      empty).0.1
    ≡ 0
run_main-passes_example =
    run_main-passes speaking show Dict.values state memory_view (λ t. t) memory_store-Implements
      IsClean memory_store-Works speaking_reads transport sample_methods axum client base url empty
      speaks (refl, nothing)
      (record { fits_get = tt; fits_cancel = tt; fits_update = tt; fits_list = tt })
