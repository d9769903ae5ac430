-- ===== src/Conformance.antt =====
-- longhaul-conformance/src/main.rs: the client, the suites and their results, and the loop of `main`
-- up to its exit status. reqwest, the clock, `Uuid`, the schema validators and the printing of
-- numbers are the parameter `Host`; its state is the world that a request may change.
pub mod Schema
pub mod Suites
pub mod Results
pub mod Exit
pub mod Report
pub mod Main
pub mod Served
pub mod Steady
pub mod Passes
mod Tests
use longhaul.Base.{
  ℕ, suc, ◌+◌, ◌-◌, ◌%◌, ◌^◌, ◌<◌, String, Bool, true, false, not, Option, none, some, List, [],
  ◌∷◌, ◌++◌, if◌then◌else◌, ◌<>◌, Result, ok, err, map_err,
}
use longhaul.Base.Int.{ℤ, pos, same_ℕ}
use longhaul.Base.Exec.{Exec, pure, raise, lift, ◌>>=◌, ◌>>◌}
use longhaul.Conformance.Schema.{Validation, Schemas}
use longhaul.Json.{Value, string, number, object, field, end, integer}
use longhaul.Core.Errors.{ErrorObject}
use longhaul.Core.Http.{header_method, header_protocol_version, protocol_version}
use longhaul.Core.Jsonrpc.{Response, result, error}

pub record CaseResult : Type 0 where
  pub name : String
  pub passed : Bool
  pub error : Option String

pub record SuiteResult : Type 0 where
  pub suite : String
  pub passed : ℕ
  pub failed : ℕ
  pub skipped : ℕ
  pub cases : List CaseResult
  pub elapsed_ms : ℕ

-- `SuiteResult::ok`
unfoldable pub all_ok : SuiteResult → Bool
all_ok r = same_ℕ r.failed 0

-- `elapsed` in milliseconds
pub record Suite : Type 0 where
  pub name : String
  pub cases : List CaseResult
  pub elapsed : ℕ

unfoldable pub new_suite : String → Suite
new_suite name = record { name = name; cases = []; elapsed = 0 }

abbrev pub is_ok : {A E : Type 0} → Result A E → Bool
is_ok (ok a) = true
is_ok (err e) = false

abbrev err_of : {A E : Type 0} → Result A E → Option E
err_of (ok a) = none
err_of (err e) = some e

abbrev pub Outcome : Type 0
Outcome = Result (Unit {0}) String

-- `Suite::record`
unfoldable pub record_case : String → Outcome → Suite → Suite
record_case name outcome s = record s {
  cases = s.cases ++ (record { name = name; passed = is_ok outcome; error = err_of outcome } ∷ []);
}

-- `filter(…).count()`
unfoldable pub count : (CaseResult → Bool) → List CaseResult → ℕ
count f [] = 0
count f (c ∷ cs) = let rest = count f cs in if f c then suc rest else rest

-- `Suite::into_result`
unfoldable pub into_result : Suite → SuiteResult
into_result s = record {
  suite = s.name;
  passed = count (λ c. c.passed) s.cases;
  failed = count (λ c. not c.passed) s.cases;
  skipped = 0;
  cases = s.cases;
  elapsed_ms = s.elapsed % 2 ^ 64;
}

-- the body of `McpClient::call`, and its headers
abbrev pub request_body : String → Value → Value
request_body method params = object (
    field "jsonrpc" (string "2.0") (
      field "id" (number (integer (pos 1)))
        (field "method" (string method) (field "params" params end))))

abbrev pub client_headers : String → List (String × String)
client_headers method =
    ("content-type", "application/json")
    ∷ (header_protocol_version, protocol_version)
    ∷ (header_method, method)
    ∷ []

pub record Host (W : Type 0) : Type 1 where
  pub Reply : Type 0
  -- `post` with its headers and JSON body, and `send`
  pub send : String → List (String × String) → Value → Exec W String Reply
  pub is_success : Reply → Bool
  pub status_text : Reply → String
  -- `resp.bytes()`, and `serde_json::from_slice`
  pub read_response : Reply → Exec W String Response
  -- the milliseconds between two readings of `Instant`
  pub elapsed : W → W → ℕ
  pub new_uuid : W → String × W
  -- the loaded schemas
  pub validation : Validation
  pub schemas : Schemas validation
  pub response_value : Response → Result Value String
  pub show_int : ℤ → String
  pub debug : String → String
  pub debug_option : Option String → String
  pub show_value : Value → String
  pub is_array : Value → Bool
  pub is_number : Value → Bool
  pub is_string : Value → Bool
  -- `str::contains`
  pub contains : String → String → Bool

module _ {W : Type 0} (host : Host W) (base_url : String) where
  abbrev map_error : {A : Type 0} → (String → String) → Exec W String A → Exec W String A
  map_error f m w = let (r, w') = m w in (map_err f r, w')

  -- `McpClient::call`
  unfoldable pub call : String → Value → Exec W String Response
  call method params = do
    resp ←
        map_error (λ e. "HTTP error: " <> e)
          (host.send (base_url <> "/mcp") (client_headers method) (request_body method params))
    if not (host.is_success resp)
        then raise ("HTTP " <> host.status_text resp)
        else host.read_response resp

  abbrev message_of : Option ErrorObject → Option String
  message_of none = none
  message_of (some e) = some e.message

  abbrev raw_of : Response → Option Value → Exec W String Value
  raw_of resp (some v) = pure v
  raw_of resp none = raise ("unexpected error: " <> host.debug_option (message_of (error resp)))

  -- `McpClient::call_raw`
  unfoldable pub call_raw : String → Value → Exec W String Value
  unfolding call
  call_raw method params = do resp ← call method params; raw_of resp (result resp)

  -- one `async` block, run at once, and `suite.record` of its result
  unfoldable pub run_case : String → Exec W String (Unit {0}) → Suite × W → Suite × W
  unfolding record_case
  run_case name block (s, w) = let (outcome, w') = block w in (record_case name outcome s, w')

  -- `suite.elapsed = t0.elapsed()` and `suite.into_result()`
  unfoldable pub finish : W → Suite × W → SuiteResult × W
  unfolding into_result
  finish t0 (s, w) = (into_result (record s { elapsed = host.elapsed t0 w }), w)
