-- ===== src/Conformance/Steady.antt =====
-- longhaul-conformance/src/main.rs: the suites of discovery and tools on a server that answers their
-- calls and stays as it is, and the exit status then.
use longhaul.Base.{String, ◌≡◌, refl, true, none, some, ok}
use longhaul.Base.Exec.{Exec}
use longhaul.Json.{Value, Number, Items, string, array, object, end, ValueMethods}
use longhaul.Json
use longhaul.Core.Http.{protocol_version}
use longhaul.Core.Jsonrpc.{Response, result}
use longhaul.Conformance.{
  Host, SuiteResult, call, call_raw, all_ok, run_case, finish, new_suite, record_case, count,
  into_result,
}
use longhaul.Conformance.Schema.{validate}
use longhaul.Conformance.Suites.{
  checked, checked_envelope, pinned_version, tools_is_array, cache_types, run_discovery, run_tools,
  run_tasks, run_suites, run_main,
}

module _ {W : Type 0} (methods : ValueMethods) (host : Host W) (url : String) where
  -- a suite that has passed and has left the world as it was
  abbrev pub Steady : W → SuiteResult × W → Type 0
  Steady w r = (all_ok r.0 ≡ true) × (r.1 ≡ w)

  three_cases :
      (name n1 n2 n3 : String) (b1 b2 b3 : Exec W String (Unit {0})) (t0 w : W)
      → b1 w ≡ (ok tt, w)
      → b2 w ≡ (ok tt, w)
      → b3 w ≡ (ok tt, w)
      → Steady w (
          finish host url t0 (
            run_case host url n3 b3
              (run_case host url n2 b2 (run_case host url n1 b1 (new_suite name, w)))))
  unfolding run_case finish new_suite record_case all_ok into_result count
  three_cases name n1 n2 n3 b1 b2 b3 t0 w h1 h2 h3 = rw (h1, h2, h3) (refl, refl)

  -- the server answers a call without parameters with a value
  abbrev pub Returns : String → W → Response → Value → Type 0
  Returns method w r v = (call host url method (object end) w ≡ (ok r, w)) × (result r ≡ some v)

  call_raw_of_Returns :
      (method : String) (w : W) (r : Response) (v : Value)
      → Returns method w r v
      → call_raw host url method (object end) w ≡ (ok v, w)
  unfolding call_raw
  call_raw_of_Returns method w r v (called, has) = rw (called, has) refl

  -- what the three cases of discovery test
  pub record Discovers (r : Response) (v : Value) : Type 0 where
    pub version : String
    pub versioned : methods.get v "protocolVersion" ≡ some (string version)
    pub pinned : version ≡ protocol_version
    pub valid : validate host.validation host.schemas "discover_result" v ≡ ok tt
    pub envelope : Value
    pub enveloped : host.response_value r ≡ ok envelope
    pub valid_envelope : validate host.validation host.schemas "jsonrpc_response" envelope ≡ ok tt

  pub run_discovery-Steady :
      (w : W) (r : Response) (v : Value)
      → Returns "server/discover" w r v
      → Discovers r v
      → Steady w (run_discovery methods host url w)
  unfolding run_discovery pinned_version
  run_discovery-Steady w r v h d =
      let raw = call_raw_of_Returns "server/discover" w r v h in
      three_cases "discovery" "discover_result_schema" "protocol_version_pinned"
        "jsonrpc_response_envelope"
        (checked methods host url "server/discover"
          (validate host.validation host.schemas "discover_result"))
        (checked methods host url "server/discover" (pinned_version methods host url))
        (checked_envelope methods host url) w w (rw (raw, d.valid) refl)
        (rw (raw, d.versioned, methods.as_str-string d.version, d.pinned) refl)
        (rw (h.0, d.enveloped, d.valid_envelope) refl)

  -- what the three cases of tools test
  pub record Lists (v : Value) : Type 0 where
    pub tools : Items
    pub has_tools : methods.get v "tools" ≡ some (array tools)
    pub is_array : host.is_array (array tools) ≡ true
    pub ttl : Number
    pub has_ttl : methods.get v "ttlMs" ≡ some (Json.number ttl)
    pub is_number : host.is_number (Json.number ttl) ≡ true
    pub scope : String
    pub has_scope : methods.get v "cacheScope" ≡ some (string scope)
    pub is_string : host.is_string (string scope) ≡ true
    pub valid : validate host.validation host.schemas "tools_list_result" v ≡ ok tt

  pub run_tools-Steady :
      (w : W) (r : Response) (v : Value)
      → Returns "tools/list" w r v
      → Lists v
      → Steady w (run_tools methods host url w)
  unfolding run_tools tools_is_array cache_types
  run_tools-Steady w r v h l =
      let raw = call_raw_of_Returns "tools/list" w r v h in
      three_cases "tools" "tools_list_schema" "tools_field_is_array" "cache_metadata_types"
        (checked methods host url "tools/list"
          (validate host.validation host.schemas "tools_list_result"))
        (checked methods host url "tools/list" (tools_is_array methods host url))
        (checked methods host url "tools/list" (cache_types methods host url)) w w
        (rw (raw, l.valid) refl) (rw (raw, l.has_tools, l.is_array) refl)
        (rw (raw, l.has_ttl, l.is_number, l.has_scope, l.is_string) refl)

  -- The exit status without a filter, when the first two suites pass and leave the world as it was.
  pub run_main_of_Steady :
      (w : W)
      → Steady w (run_discovery methods host url w)
      → Steady w (run_tools methods host url w)
      → all_ok (run_tasks methods host url w).0 ≡ true
      → (run_main methods host url none w).0.1 ≡ 0
  unfolding run_main run_suites
  run_main_of_Steady w (d, d_same) (t, t_same) tasks = rw (d, d_same, t, t_same, tasks) refl
