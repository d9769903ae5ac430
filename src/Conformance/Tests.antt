-- ===== src/Conformance/Tests.antt =====
-- The runner against a host that answers every task call with the error for a missing task.
use longhaul.Base.{
  ℕ, suc, ◌-◌, String, ◌≡◌, ◌↔◌, true, false, Option, some, [], if◌then◌else◌, ◌==◌, ok, err,
}
use longhaul.Base.Int.{pos}
use longhaul.Conformance.Schema.{Validation}
use longhaul.Json.{Value, string, object, field, end}
use longhaul.Json.Sample.{sample_methods}
use longhaul.Core.Errors.{invalid_params_error, method_not_found_error}
use longhaul.Core.Jsonrpc.{Response, number, failure}
use longhaul.Conformance.{Suite, Host, record_case, new_suite}
use longhaul.Conformance.Suites.{run_main}
use longhaul.Conformance.Report.{total}
use longhaul.Conformance.Main.{Cli, main, main_iff}

abbrev answer : Option Value → Response
answer (some (string m)) =
    failure (number (pos 1)) (
      if m == "tasks/list" then method_not_found_error m else invalid_params_error "Task not found")
answer _ = failure (number (pos 1)) (invalid_params_error "no method")

abbrev validation : Validation
validation = record {
  Validator = Unit;
  from_str = λ s. err "unsupported";
  validator_for = λ v. ok tt;
  iter_errors = λ validator v. [];
}

-- the world counts the requests
abbrev host : Host ℕ
host = record {
  Reply = Value;
  send = λ url headers body w. (ok body, suc w);
  is_success = λ body. true;
  status_text = λ body. "200 OK";
  read_response = λ body w. (ok (answer (sample_methods.get body "method")), w);
  elapsed = λ t0 t1. t1 - t0;
  new_uuid = λ w. ("1", w);
  validation = validation;
  schemas = record { validators = [] };
  response_value = λ r. ok (object end);
  show_int = λ n. "n";
  debug = λ s. s;
  debug_option = λ o. "none";
  show_value = λ v. "value";
  is_array = λ v. false;
  is_number = λ v. false;
  is_string = λ v. false;
  contains = λ name filter. name == filter;
}

abbrev mixed : Suite
mixed = record_case "second" (err "no") (record_case "first" (ok tt) (new_suite "mixed"))

abbrev id : Value
id = string "conformance-1"

abbrev known : Value
known = object (field "taskId" id end)

abbrev change : Value
change = object (field "taskId" id (field "status" (string "completed") end))

abbrev url : String
url = "http://localhost:3000"

abbrev cli : Cli
cli = record { url = some url; filter = some "tasks"; json = false }

main_iff_example : ((main sample_methods host (λ n. "n") (λ results. "[]") cli 0).0.status ≡ 0) ↔ (
    (u : String) × (some url ≡ some u)
    × (total (λ r. r.failed) (run_main sample_methods host u (some "tasks") 0).0.0 ≡ 0))
main_iff_example = main_iff sample_methods host (λ n. "n") (λ results. "[]") cli 0
