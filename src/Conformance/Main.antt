-- ===== src/Conformance/Main.antt =====
-- longhaul-conformance/src/main.rs: `main`, from the command line to the lines that it prints and the
-- exit status. `pretty` is `serde_json::to_string_pretty` of the results, and `show` prints a number.
-- The host holds the client and the schemas, which `main` makes first.
use longhaul.Base.{
  ℕ, String, ◌≡◌, refl, ◌↔◌, inl, inr, Bool, Option, none, some, List, [], ◌∷◌, if◌then◌else◌,
  Option-cases, some_injective,
}
use longhaul.Json.{ValueMethods}
use longhaul.Conformance.{SuiteResult, Host}
use longhaul.Conformance.Suites.{run_main}
use longhaul.Conformance.Report.{print_human, total, run_main-total}

pub record Cli : Type 0 where
  pub url : Option String
  pub filter : Option String
  pub json : Bool

-- the lines of `print_usage`
abbrev pub usage : List String
usage =
    "longhaul-conformance — MCP 2026-07-28 RC" ∷ "" ∷ "Usage:"
    ∷ "  longhaul-conformance --url <BASE_URL> [--filter <SUITE>] [--json]" ∷ "" ∷ "Examples:"
    ∷ "  longhaul-conformance --url http://localhost:3000"
    ∷ "  longhaul-conformance --url http://localhost:3000 --filter tasks"
    ∷ "  longhaul-conformance --url http://localhost:3000 --json" ∷ "" ∷ "Suites:"
    ∷ "  discovery  server/discover capability discovery"
    ∷ "  tools      list (cache metadata), call outcomes"
    ∷ "  tasks      get/update/cancel + error codes" ∷ []

-- what is printed, and the exit status
pub record Exit : Type 0 where
  pub stdout : List String
  pub stderr : List String
  pub status : ℕ

module _ {W : Type 0} (methods : ValueMethods) (host : Host W) (show : ℕ → String)
    (pretty : List SuiteResult → String) where
  unfoldable pub report : Bool → String → List SuiteResult → List String
  report json url results = if json then pretty results ∷ [] else print_human show url results

  unfoldable pub main_at : Option String → Cli → W → Exit × W
  unfolding report
  main_at none cli w = (record { stdout = []; stderr = usage; status = 1 }, w)
  main_at (some url) cli w =
      let ((results, status), w') = run_main methods host url cli.filter w in
      (record { stdout = report cli.json url results; stderr = []; status = status }, w')

  unfoldable pub main : Cli → W → Exit × W
  unfolding main_at
  main cli w = main_at cli.url cli w

  -- The exit status is 0 exactly when a URL is given and none of the suites that are run on it has a
  -- failed case.
  pub main_iff :
      (cli : Cli) (w : W)
      → ((main cli w).0.status ≡ 0) ↔ (
          (url : String) × (cli.url ≡ some url)
          × (total (λ r. r.failed) (run_main methods host url cli.filter w).0.0 ≡ 0))
  unfolding main
  main_iff cli w = elim (Option-cases cli.url) [
    | inl n ↦ rw n (λ h. cc, λ (url, q, _). cc)
    | inr (url, q) ↦ rw q (
      λ h. (url, refl, (run_main-total methods host url cli.filter w).0 h),
      λ (u, e, h). (run_main-total methods host url cli.filter w).1 (rw (some_injective e) h),
    )
  ]
