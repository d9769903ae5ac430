-- ===== src/Conformance/Report.antt =====
-- longhaul-conformance/src/main.rs: `print_human`, as the lines that it prints, and how its totals
-- agree with the exit status. `show` prints a number.
use longhaul.Base.{
  ℕ, ◌+◌, String, ◌≡◌, refl, ◌↔◌, Option, none, some, List, [], ◌∷◌, ◌++◌, map, arith,
  if◌then◌else◌, ◌<>◌,
}
use longhaul.Json.{ValueMethods}
use longhaul.Conformance.{CaseResult, SuiteResult, Host, all_ok}
use longhaul.Conformance.Suites.{run_main}
use longhaul.Conformance.Exit.{AllOk, run_main-status}

-- `iter().map(…).sum()`
unfoldable pub total : (SuiteResult → ℕ) → List SuiteResult → ℕ
total f [] = 0
total f (r ∷ rs) = f r + total f rs

module _ (show : ℕ → String) where
  abbrev error_text : Option String → String
  error_text none = ""
  error_text (some e) = " — " <> e

  unfoldable pub case_line : CaseResult → String
  case_line c = (if c.passed then "  ✓" else "  ✗") <> " " <> c.name <> error_text c.error

  unfoldable pub suite_line : SuiteResult → String
  suite_line r =
      "["
      <> (if all_ok r then "PASS" else "FAIL")
      <> "] "
      <> r.suite
      <> " — "
      <> show r.passed
      <> "/"
      <> show (r.passed + r.failed)
      <> " passed ("
      <> show r.elapsed_ms
      <> "ms)"

  unfoldable pub suite_lines : List SuiteResult → List String
  unfolding suite_line case_line
  suite_lines [] = []
  suite_lines (r ∷ rs) = suite_line r ∷ (map case_line r.cases ++ ("" ∷ suite_lines rs))

  unfoldable pub total_line : List SuiteResult → String
  unfolding total
  total_line results =
      "Total: "
      <> show (total (λ r. r.passed) results)
      <> " passed, "
      <> show (total (λ r. r.failed) results)
      <> " failed"

  unfoldable pub print_human : String → List SuiteResult → List String
  unfolding suite_lines total_line
  print_human url results =
      "longhaul-conformance — MCP 2026-07-28 RC"
      ∷ ("Target: " <> url)
      ∷ ""
      ∷ (suite_lines results ++ (total_line results ∷ []))

module _ {W : Type 0} (methods : ValueMethods) (host : Host W) (url : String) where
  none_failed : (rs : List SuiteResult) → AllOk methods host url rs ↔ (total (λ r. r.failed) rs ≡ 0)
  unfolding total all_ok
  none_failed [] = (λ h. refl, λ h. tt)
  none_failed (r ∷ rs) = (
    λ h. ground (arith, h.0, (none_failed rs).0 h.1),
    λ h. (ground arith, (none_failed rs).1 (omega arith)),
  )

  -- The runner exits with 0 exactly when the number of failed cases that its report totals is 0.
  pub run_main-total :
      (filter : Option String) (w : W)
      → let ((results, status), _) = run_main methods host url filter w in
        (status ≡ 0) ↔ (total (λ r. r.failed) results ≡ 0)
  run_main-total filter w =
      let ((results, status), _) = run_main methods host url filter w in
      let (passes, _) = run_main-status methods host url filter w in
      (λ h. (none_failed results).0 (passes.0 h), λ h. passes.1 ((none_failed results).1 h))
