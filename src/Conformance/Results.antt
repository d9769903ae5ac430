-- ===== src/Conformance/Results.antt =====
-- longhaul-conformance/src/main.rs: what the counts of a suite say about its cases, and when the
-- task suite passes.
use longhaul.Base.{
  not, true, ◌+◌, String, ◌≡◌, refl, ◌↔◌, inl, inr, Option, none, some, List, [], ◌∷◌, arith,
  length, ok, Result-cases, err, ◌<>◌,
}
use longhaul.Base.Int.{ℤ, eq_ℤ_iff}
use longhaul.Json.{Value, ValueMethods, object, field, end, string}
use longhaul.Core.Errors.{method_not_found, invalid_params, ErrorObject}
use longhaul.Core.Jsonrpc.{Response, error}
use longhaul.Conformance.{
  all_ok, Outcome, is_ok, record_case, CaseResult, Suite, Host, count, into_result, call, run_case,
  finish, new_suite, string,
}
use longhaul.Conformance.Suites.{missing_task, expect_error, expect_code, task_cases, run_tasks}

abbrev pub AllPassed : List CaseResult → Type 0
AllPassed [] = Unit
AllPassed (c ∷ cs) = (c.passed ≡ true) × AllPassed cs

count_total :
    (cs : List CaseResult) → count (λ c. c.passed) cs + count (λ c. not c.passed) cs ≡ length cs
unfolding count
count_total [] = refl
count_total (c ∷ cs) = ground (arith, count_total cs)

none_failed : (cs : List CaseResult) → count (λ c. not c.passed) cs ≡ 0 → AllPassed cs
unfolding count
none_failed [] h = tt
none_failed (c ∷ cs) h = (ground arith, none_failed cs (ground arith))

failed_none : (cs : List CaseResult) → AllPassed cs → count (λ c. not c.passed) cs ≡ 0
unfolding count
failed_none [] h = refl
failed_none (c ∷ cs) (p, ps) = ground (arith, p, failed_none cs ps)

-- The counts of a suite add up to the number of its cases, and the suite is reported as passed
-- exactly when every case has passed.
pub into_result_lem :
    (s : Suite)
    → ((into_result s).passed + (into_result s).failed ≡ length s.cases)
      × ((into_result s).cases ≡ s.cases)
      × ((all_ok (into_result s) ≡ true) ↔ AllPassed s.cases)
unfolding into_result all_ok
into_result_lem s = (
  count_total s.cases,
  refl,
  (λ h. none_failed s.cases (ground arith), λ h. ground (arith, failed_none s.cases h)),
)

module _ {W : Type 0} (methods : ValueMethods) (host : Host W) (url : String) where
  -- The server has answered a call with an error of a given code.
  abbrev pub Answers : ℤ → String → Value → W → Type 0
  Answers code method params w =
      (r : Response) × (e : ErrorObject) × ((call host url method params w).0 ≡ ok r)
      × (error r ≡ some e)
      × (e.code ≡ code)

  expect_error_lem :
      (code : ℤ) (x y : String) (o : Option ErrorObject)
      → expect_error methods host url code x y o ≡ ok tt
      → (e : ErrorObject) × (o ≡ some e) × (e.code ≡ code)
  unfolding expect_error
  expect_error_lem code x y none h = cc
  expect_error_lem code x y (some e) h = (e, refl, (eq_ℤ_iff e.code code).0 (ground arith))

  expect_code-world :
      (code : ℤ) (x y method : String) (params : Value) (w : W)
      → (expect_code methods host url code x y method params w).1
        ≡ (call host url method params w).1
  unfolding expect_code
  expect_code-world code x y method params w =
      elim (Result-cases (call host url method params w).0) [
        | inl (r, e) ↦ rw e refl
        | inr (m, e) ↦ rw e refl
      ]

  expect_code-ok :
      (code : ℤ) (x y method : String) (params : Value) (w : W)
      → (expect_code methods host url code x y method params w).0 ≡ ok tt
      → Answers code method params w
  unfolding expect_code
  expect_code-ok code x y method params w h =
      elim (Result-cases (call host url method params w).0) [
        | inl (r, q) ↦
            let (e, found, same) = expect_error_lem code x y (error r) (rw q at h) in
            (r, e, q, found, same)
        | inr (m, q) ↦ cc (rw q at h)
      ]

  ok-expect_code :
      (code : ℤ) (x y method : String) (params : Value) (w : W)
      → Answers code method params w
      → (expect_code methods host url code x y method params w).0 ≡ ok tt
  unfolding expect_code expect_error
  ok-expect_code code x y method params w (r, e, q, found, same) =
      rw (q, found, ((eq_ℤ_iff e.code code).1 same)) refl

  is_ok_iff : (o : Outcome) → (is_ok o ≡ true) ↔ (o ≡ ok tt)
  is_ok_iff (ok tt) = (λ h. refl, λ h. refl)
  is_ok_iff (err e) = (λ h. cc, λ h. cc)

  case_iff :
      (code : ℤ) (x y method : String) (params : Value) (w : W)
      → (is_ok (expect_code methods host url code x y method params w).0 ≡ true)
        ↔ Answers code method params w
  case_iff code x y method params w = (
    λ h. expect_code-ok code x y method params w ((is_ok_iff _).0 h),
    λ h. (is_ok_iff _).1 (ok-expect_code code x y method params w h),
  )

  abbrev called : String → Value → W → W
  called method params w = (call host url method params w).1

  abbrev Passes : String → Value → W → Type 0
  Passes method params w = is_ok (missing_task methods host url method params w).0 ≡ true

  -- four cases in the worlds that their calls leave
  sequence_iff :
      (m1 m2 m3 m4 x y : String) (p1 p2 p3 p4 : Value) (w0 : W)
      → let e1 = (missing_task methods host url m1 p1 w0).1 in
        let e2 = (missing_task methods host url m2 p2 e1).1 in
        let e3 = (missing_task methods host url m3 p3 e2).1 in
        let w1 = called m1 p1 w0 in
        let w2 = called m2 p2 w1 in
        let w3 = called m3 p3 w2 in
        (Passes m1 p1 w0
          × (Passes m2 p2 e1
              × (Passes m3 p3 e2
                  × ((is_ok (expect_code methods host url method_not_found x y m4 p4 e3).0 ≡ true)
                      × Unit {0}))))
        ↔ (Answers invalid_params m1 p1 w0
            × Answers invalid_params m2 p2 w1
            × Answers invalid_params m3 p3 w2
            × Answers method_not_found m4 p4 w3)
  sequence_iff m1 m2 m3 m4 x y p1 p2 p3 p4 w0 =
      rw
        (
          expect_code-world invalid_params "Expected -32602"
              "Expected error for missing task, got success" m1 p1 w0,
          expect_code-world invalid_params "Expected -32602"
              "Expected error for missing task, got success" m2 p2 (called m1 p1 w0),
          expect_code-world invalid_params "Expected -32602"
              "Expected error for missing task, got success" m3 p3 (called m2 p2 (called m1 p1 w0)),
        )
        (
          λ (a, (b, (c, (d, _)))). (
            (case_iff _ _ _ m1 p1 _).0 a,
            (case_iff _ _ _ m2 p2 _).0 b,
            (case_iff _ _ _ m3 p3 _).0 c,
            (case_iff _ _ _ m4 p4 _).0 d,
          ),
          λ (a, b, c, d). (
            (case_iff _ _ _ m1 p1 _).1 a,
            (
              (case_iff _ _ _ m2 p2 _).1 b,
              ((case_iff _ _ _ m3 p3 _).1 c, ((case_iff _ _ _ m4 p4 _).1 d, tt)),
            ),
          ),
        )

  -- The task suite passes exactly when the server answers the reading, the cancellation and the
  -- update of a task with a fresh id with -32602 each, and the removed method with -32601, in the
  -- worlds that the calls before have left.
  pub run_tasks_iff :
      (t0 : W)
      → let (uuid, w0) = host.new_uuid t0 in
        let id : Value = string ("conformance-" <> uuid) in
        let known : Value = object (field "taskId" id end) in
        let change : Value = object (field "taskId" id (field "status" (string "completed") end)) in
        let w1 = (call host url "tasks/get" known w0).1 in
        let w2 = (call host url "tasks/cancel" known w1).1 in
        let w3 = (call host url "tasks/update" change w2).1 in
        (all_ok (run_tasks methods host url t0).0 ≡ true) ↔ (
          Answers invalid_params "tasks/get" known w0
          × Answers invalid_params "tasks/cancel" known w1
          × Answers invalid_params "tasks/update" change w2
          × Answers method_not_found "tasks/list" (object end) w3)
  unfolding run_tasks task_cases run_case finish new_suite record_case
  run_tasks_iff t0 =
      let (uuid, w0) = host.new_uuid t0 in
      let id : Value = string ("conformance-" <> uuid) in
      let known : Value = object (field "taskId" id end) in
      let change : Value = object (field "taskId" id (field "status" (string "completed") end)) in
      let (s, w) = task_cases methods host url t0 in
      let (_, _, passed) = into_result_lem (record s { elapsed = host.elapsed t0 w }) in
      let answers =
        sequence_iff "tasks/get" "tasks/cancel" "tasks/update" "tasks/list"
          "Expected -32601 (tasks/list removed)" "tasks/list should not exist in RC" known known
          change (object end) w0 in
      (λ h. answers.0 (passed.0 h), λ h. passed.1 (answers.1 h))
