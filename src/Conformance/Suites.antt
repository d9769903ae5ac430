-- ===== src/Conformance/Suites.antt =====
-- longhaul-conformance/src/main.rs: the three suites, case by case, and the loop of `main`.
use longhaul.Base.{
  ℕ, String, Bool, false, not, ◌&&◌, ◌||◌, Option, none, some, List, [], ◌∷◌, ◌++◌, if◌then◌else◌,
  ◌<>◌, ◌==◌, ok, err, and_then,
}
use longhaul.Base.Int.{ℤ, eq_ℤ}
use longhaul.Base.Exec.{Exec, lift, ◌>>=◌}
use longhaul.Conformance.Schema.{validate}
use longhaul.Json.{Value, null, string, object, field, end, ValueMethods}
use longhaul.Core.Errors.{invalid_params, method_not_found, ErrorObject}
use longhaul.Core.Http.{protocol_version}
use longhaul.Core.Jsonrpc.{error}
use longhaul.Conformance.{
  SuiteResult, Host, Outcome, new_suite, call, call_raw, run_case, finish, all_ok, Suite,
}

abbrev or_null : Option Value → Value
or_null none = null
or_null (some v) = v

module _ {W : Type 0} (methods : ValueMethods) (host : Host W) (url : String) where
  abbrev pub empty : Value
  empty = object end

  -- the outcome of a test of the value that a call has returned
  abbrev pub checked : String → (Value → Outcome) → Exec W String (Unit {0})
  checked method test = do v ← call_raw host url method empty; lift (test v)

  same_version : Option String → Outcome
  same_version none = err "missing protocolVersion"
  same_version (some ver) =
      if not (ver == protocol_version)
      then err
          ("protocolVersion is " <> host.debug ver <> ", expected " <> host.debug protocol_version)
      else ok tt

  -- `v["protocolVersion"].as_str()`, where indexing gives null for a missing key
  unfoldable pub pinned_version : Value → Outcome
  unfolding same_version
  pinned_version v = same_version (methods.as_str (or_null (methods.get v "protocolVersion")))

  -- the first case of discovery, on the whole response
  abbrev pub checked_envelope : Exec W String (Unit {0})
  checked_envelope = do
    resp ← call host url "server/discover" empty
    v ← lift (host.response_value resp)
    lift (validate host.validation host.schemas "jsonrpc_response" v)

  unfoldable pub run_discovery : W → SuiteResult × W
  unfolding validate call call_raw run_case finish new_suite pinned_version
  run_discovery t0 = finish host url t0 (
      run_case host url "jsonrpc_response_envelope" checked_envelope (
        run_case host url "protocol_version_pinned" (checked "server/discover" pinned_version) (
          run_case host url "discover_result_schema"
            (checked "server/discover" (validate host.validation host.schemas "discover_result"))
            (new_suite "discovery", t0))))

  unfoldable pub tools_is_array : Value → Outcome
  tools_is_array v =
      if not (host.is_array (or_null (methods.get v "tools")))
      then err "tools field is not an array"
      else ok tt

  typed : (Value → Bool) → String → Option Value → Outcome
  typed test message none = ok tt
  typed test message (some v) = if not (test v) then err (message <> host.show_value v) else ok tt

  unfoldable pub cache_types : Value → Outcome
  unfolding typed
  cache_types v =
      and_then (typed host.is_number "ttlMs is not a number: " (methods.get v "ttlMs"))
        (λ _. typed host.is_string "cacheScope is not a string: " (methods.get v "cacheScope"))

  unfoldable pub run_tools : W → SuiteResult × W
  unfolding call_raw run_case finish new_suite tools_is_array cache_types
  run_tools t0 = finish host url t0 (
      run_case host url "cache_metadata_types" (checked "tools/list" cache_types) (
        run_case host url "tools_field_is_array" (checked "tools/list" tools_is_array) (
          run_case host url "tools_list_schema"
            (checked "tools/list" (validate host.validation host.schemas "tools_list_result"))
            (new_suite "tools", t0))))

  -- the `match resp.error()` of a case, with the texts for another code and for no error
  unfoldable pub expect_error : ℤ → String → String → Option ErrorObject → Outcome
  expect_error code expected missing none = err missing
  expect_error code expected missing (some e) =
      if eq_ℤ e.code code
      then ok tt
      else err (expected <> ", got " <> host.show_int e.code <> ": " <> e.message)

  -- a case of the task suite
  unfoldable pub expect_code : ℤ → String → String → String → Value → Exec W String (Unit {0})
  unfolding call expect_error
  expect_code code expected missing method params = do
    resp ← call host url method params
    lift (expect_error code expected missing (error resp))

  abbrev pub missing_task : String → Value → Exec W String (Unit {0})
  missing_task =
      expect_code invalid_params "Expected -32602" "Expected error for missing task, got success"

  abbrev with_id : String → Value
  with_id id = object (field "taskId" (string id) end)

  -- the cases of `run_tasks`, in its order
  unfoldable pub task_cases : W → Suite × W
  unfolding expect_code run_case new_suite
  task_cases t0 =
      let (uuid, w) = host.new_uuid t0 in
      let id = "conformance-" <> uuid in
      run_case host url "tasks_list_removed_returns_32601"
        (expect_code method_not_found "Expected -32601 (tasks/list removed)"
          "tasks/list should not exist in RC" "tasks/list" empty)
        (run_case host url "update_missing_task_returns_32602"
          (missing_task "tasks/update"
            (object (field "taskId" (string id) (field "status" (string "completed") end))))
          (run_case host url "cancel_missing_task_returns_32602"
            (missing_task "tasks/cancel" (with_id id))
            (run_case host url "get_missing_task_returns_32602"
              (missing_task "tasks/get" (with_id id)) (new_suite "tasks", w))))

  unfoldable pub run_tasks : W → SuiteResult × W
  unfolding task_cases finish
  run_tasks t0 = finish host url t0 (task_cases t0)

  -- the suites of `main` with their names, in its order
  abbrev pub all_suites : List (String × (W → SuiteResult × W))
  all_suites = ("discovery", run_discovery) ∷ ("tools", run_tools) ∷ ("tasks", run_tasks) ∷ []

  abbrev pub is_empty : String → Bool
  is_empty s = s == ""

  -- the loop of `main`: the results so far and `any_failed`
  unfoldable pub run_suites :
      String
      → List (String × (W → SuiteResult × W))
      → List SuiteResult × Bool
      → W
      → (List SuiteResult × Bool) × W
  unfolding all_ok
  run_suites filter [] acc w = (acc, w)
  run_suites filter ((name, suite) ∷ suites) (results, any_failed) w =
      let (result, w') = suite w in
      let skipped = run_suites filter suites (results, any_failed) w in
      let ran =
        run_suites filter suites (results ++ (result ∷ []), any_failed || not (all_ok result)) w' in
      if not (is_empty filter) && not (host.contains name filter) then skipped else ran

  abbrev pub filter_of : Option String → String
  filter_of none = ""
  filter_of (some f) = f

  -- `main` for a given URL: what it prints and its exit status
  unfoldable pub run_main : Option String → W → (List SuiteResult × ℕ) × W
  unfolding run_suites run_discovery run_tools run_tasks
  run_main filter w =
      let ((results, any_failed), w') = run_suites (filter_of filter) all_suites ([], false) w in
      ((results, if any_failed then 1 else 0), w')
