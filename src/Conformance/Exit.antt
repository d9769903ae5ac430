-- ===== src/Conformance/Exit.antt =====
-- longhaul-conformance/src/main.rs: what the exit status says about the suites that were run.
use longhaul.Base.{
  String, ◌≡◌, refl, ◌↔◌, ◌⊎◌, inl, inr, Bool, true, false, not, ◌&&◌, ◌||◌, Option, List, [], ◌∷◌,
  ◌++◌, arith, Bool-cases,
}
use longhaul.Json.{ValueMethods}
use longhaul.Conformance.{SuiteResult, all_ok, Host}
use longhaul.Conformance.Suites.{is_empty, filter_of, run_suites, run_main, all_suites}

module _ {W : Type 0} (methods : ValueMethods) (host : Host W) (url : String) where
  abbrev pub AllOk : List SuiteResult → Type 0
  AllOk [] = Unit
  AllOk (r ∷ rs) = (all_ok r ≡ true) × AllOk rs

  AllOk-append :
      (rs : List SuiteResult) (r : SuiteResult)
      → AllOk (rs ++ (r ∷ [])) ↔ (AllOk rs × (all_ok r ≡ true))
  AllOk-append [] r = (λ h. (tt, h.0), λ h. (h.1, tt))
  AllOk-append (q ∷ rs) r =
      let (there, back) = AllOk-append rs r in
      (λ h. ((h.0, (there h.1).0), (there h.1).1), λ h. (h.0.0, back (h.0.1, h.1)))

  -- the loop keeps `any_failed` false exactly while every result is a pass
  abbrev Tracks : List SuiteResult × Bool → Type 0
  Tracks acc = (acc.1 ≡ false) ↔ AllOk acc.0

  Tracks-step :
      (rs : List SuiteResult) (b : Bool) (r : SuiteResult)
      → Tracks (rs, b)
      → Tracks (rs ++ (r ∷ []), b || not (all_ok r))
  Tracks-step rs false r h = (
    λ q. (AllOk-append rs r).1 (h.0 refl, ground arith),
    λ a. ground (arith, ((AllOk-append rs r).0 a).1),
  )
  Tracks-step rs true r h = (λ q. cc, λ a. cc (h.1 ((AllOk-append rs r).0 a).0))

  run_suites-Tracks :
      (filter : String) (suites : List (String × (W → SuiteResult × W)))
      (acc : List SuiteResult × Bool) (w : W)
      → Tracks acc
      → Tracks (run_suites methods host url filter suites acc w).0
  unfolding run_suites
  run_suites-Tracks filter [] acc w h = h
  run_suites-Tracks filter ((name, suite) ∷ suites) (rs, b) w h =
      let skips = not (is_empty methods host url filter) && not (host.contains name filter) in
      elim (Bool-cases skips) [
        | inl skip ↦ rw skip (run_suites-Tracks filter suites (rs, b) w h)
        | inr run ↦
            rw run (run_suites-Tracks filter suites _ (suite w).1 (Tracks-step rs b (suite w).0 h))
      ]

  -- The runner exits with 0 exactly when every suite that it has run has passed, and with 1
  -- otherwise.
  pub run_main-status :
      (filter : Option String) (w : W)
      → let ((results, status), _) = run_main methods host url filter w in
        ((status ≡ 0) ↔ AllOk results) × ((status ≡ 0) ⊎ (status ≡ 1))
  unfolding run_main
  run_main-status filter w =
      let acc =
        (run_suites methods host url (filter_of methods host url filter)
          (all_suites methods host url) ([], false) w).0 in
      let tracks =
        run_suites-Tracks (filter_of methods host url filter) (all_suites methods host url)
          ([], false) w (λ q. tt, λ a. refl) in
      elim (Bool-cases acc.1) [
        | inl bad ↦ rw bad ((λ q. cc, λ a. cc (bad, tracks.1 a)), inr refl)
        | inr good ↦ rw good ((λ q. tracks.0 good, λ a. refl), inl refl)
      ]
