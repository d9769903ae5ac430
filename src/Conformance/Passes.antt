-- ===== src/Conformance/Passes.antt =====
-- The task suite against a server over any store that keeps its contract and works, through the
-- client, the HTTP layers, the dispatch, the handlers and the store.
pub mod Whole
pub mod Memory
mod Tests
use longhaul.Base.{
  ◌-◌, ◌<◌, String, ◌≡◌, refl, ap, ◌∙◌, inl, inr, true, not, none, List, ◌<>◌, Result, ok, err,
}
use longhaul.Base.Dict
use longhaul.Base.Dict.{Dict}
use longhaul.Base.Int.{pos}
use longhaul.Json.{Value, string, object, field, end, ValueMethods}
use longhaul.Core.Errors.{ErrorObject, invalid_params, method_not_found, method_not_found_error}
use longhaul.Core.Errors
use longhaul.Core.Tasks.{Task, completed, UpdateTaskParams}
use longhaul.Core.Jsonrpc.{Response, number, failure, error, params_as}
use longhaul.Server.Store.{SqliteError, StoreError, not_found, TaskStore}
use longhaul.Server.Store.Contract.{
  View, Meets, Implements, IsFault, spec_get, spec_update, spec_cancel,
}
use longhaul.Server.Registry.{ToolEntry}
use longhaul.Server.Handlers.{ServerState, Wire, dispatch, store_err_to_rpc}
use longhaul.Server.Handlers.Routing.{tasks_list-not-IsKnown}
use longhaul.Server.Handlers.Envelope.{dispatch_of_unknown}
use longhaul.Server.Handlers.TaskCalls.{answered, dispatch-update, dispatch-get, dispatch-cancel}
use longhaul.Server.Http.{Transport}
use longhaul.Server.Router.{Axum}
use longhaul.Conformance.{Host, call, request_body, all_ok}
use longhaul.Conformance.Suites.{run_tasks}
use longhaul.Conformance.Results.{run_tasks_iff}
use longhaul.Conformance.Served.{Client, sent, served, call-served}

-- What the conversions of the parameters must do: read what the runner sends.
pub record ReadsTaskCalls (wire : Wire) : Type 0 where
  pub reads_get :
      (id : String)
      → wire.get_task_params.from_value (object (field "taskId" (string id) end))
        ≡ ok (record { task_id = id; meta = none })
  pub reads_cancel :
      (id : String)
      → wire.cancel_task_params.from_value (object (field "taskId" (string id) end))
        ≡ ok (record { task_id = id; meta = none })
  pub reads_update :
      (id : String)
      → wire.update_task_params.from_value
          (object (field "taskId" (string id) (field "status" (string "completed") end)))
        ≡ ok (record { task_id = id; status = completed; meta = none })

-- the parameters that the suite sends for an id
abbrev pub known : String → Value
known id = object (field "taskId" (string id) end)

abbrev pub change : String → Value
change id = object (field "taskId" (string id) (field "status" (string "completed") end))

-- A store whose methods do not fault in the worlds of `Sound`, and stay in them.
pub record Works {W : Type 0} (store : TaskStore W) (Sound : W → Type 0) : Type 0 where
  pub get_works :
      (id : String) (w : W) → Sound w → ¬ (IsFault (store.get id w).0) × Sound (store.get id w).1
  pub update_works :
      (p : UpdateTaskParams) (w : W)
      → Sound w
      → ¬ (IsFault (store.update p w).0) × Sound (store.update p w).1
  pub cancel_works :
      (id : String) (w : W)
      → Sound w
      → ¬ (IsFault (store.cancel id w).0) × Sound (store.cancel id w).1

module _ {W : Type 0} (wire : Wire) (show : SqliteError → String)
    (iterate : Dict (ToolEntry W) → List (ToolEntry W)) (state : ServerState W) (view : W → View)
    (keep : Task → Task) (impl : Implements view state.store keep) (Sound : W → Type 0)
    (works : Works state.store Sound) (reads : ReadsTaskCalls wire) where
  abbrev pub missing : String → Response
  missing id = failure (number (pos 1)) (Errors.new invalid_params ("Task not found: " <> id))

  abbrev pub Lacks : String → W → Type 0
  Lacks id w = Sound w × (view w id ≡ none)

  -- the call is refused for the missing task, and the store goes on without it
  abbrev Unknown : String → Value → String → W → Type 0
  Unknown method params id w =
      (w' : W) × (dispatch wire show iterate state (sent method params) w ≡ (missing id, w'))
      × Lacks id w'

  Unknown-of_Meets :
      (method id : String) (params : Value) (w : W) (r : Result Task StoreError × W)
      → dispatch wire show iterate state (sent method params) w
        ≡ answered wire show iterate state (sent method params) r
      → Meets view w r (err (not_found id), view w)
      → ¬ (IsFault r.0) × Sound r.1
      → view w id ≡ none
      → Unknown method params id w
  unfolding store_err_to_rpc
  Unknown-of_Meets method id params w (r, w') e (inl (q, same)) (_, sound) gone =
      (w', e ∙ rw q refl, (sound, same id ∙ gone))
  Unknown-of_Meets method id params w (r, w') e (inr (f, same)) (fine, _) gone = absurd (fine f)

  get-Unknown : (id : String) (w : W) → Lacks id w → Unknown "tasks/get" (known id) id w
  unfolding params_as
  get-Unknown id w (sound, gone) =
      Unknown-of_Meets "tasks/get" id (known id) w (state.store.get id w)
        (dispatch-get wire show iterate state (sent "tasks/get" (known id)) w
          (record { task_id = id; meta = none }) refl (reads.reads_get id))
        (rw gone at (impl.get_meets id w)) (works.get_works id w sound) gone

  cancel-Unknown : (id : String) (w : W) → Lacks id w → Unknown "tasks/cancel" (known id) id w
  unfolding params_as
  cancel-Unknown id w (sound, gone) =
      Unknown-of_Meets "tasks/cancel" id (known id) w (state.store.cancel id w)
        (dispatch-cancel wire show iterate state (sent "tasks/cancel" (known id)) w
          (record { task_id = id; meta = none }) refl (reads.reads_cancel id))
        (rw gone at (impl.cancel_meets id w)) (works.cancel_works id w sound) gone

  update-Unknown : (id : String) (w : W) → Lacks id w → Unknown "tasks/update" (change id) id w
  unfolding params_as
  update-Unknown id w (sound, gone) =
      let p : UpdateTaskParams = record { task_id = id; status = completed; meta = none } in
      Unknown-of_Meets "tasks/update" id (change id) w (state.store.update p w)
        (dispatch-update wire show iterate state (sent "tasks/update" (change id)) w p refl
          (reads.reads_update id))
        (rw gone at (impl.update_meets p w)) (works.update_works p w sound) gone

  module _ (t : Transport) (methods : ValueMethods) (axum : Axum t W) (c : Client t methods)
      (base : Host W) (url : String) where
    abbrev pub host : Host W
    host = served t methods c axum (dispatch wire show iterate state) base

    -- the four bodies of the suite are within the limit of the server
    pub record SuiteFits (id : String) : Type 0 where
      pub fits_get : c.Fits (request_body "tasks/get" (known id))
      pub fits_cancel : c.Fits (request_body "tasks/cancel" (known id))
      pub fits_update : c.Fits (request_body "tasks/update" (change id))
      pub fits_list : c.Fits (request_body "tasks/list" (object end))

    pub answers :
        (method : String) (params : Value) (w w' : W) (response : Response)
        → c.Fits (request_body method params)
        → dispatch wire show iterate state (sent method params) w ≡ (response, w')
        → call host url method params w ≡ (ok response, w')
    answers method params w w' response fits e =
        call-served t methods c axum (dispatch wire show iterate state) base url method params w
          fits
        ∙ ap (λ (r : Response × W). (ok r.0, r.1)) e

    -- A server over a store that keeps its contract and works passes the whole task suite of the
    -- runner, if no task has the fresh id and the four bodies are within the limit of the server,
    -- whatever else it serves.
    pub run_tasks-passes :
        (t0 : W)
        → let (uuid, w0) = base.new_uuid t0 in
          Lacks ("conformance-" <> uuid) w0
          → SuiteFits ("conformance-" <> uuid)
          → all_ok (run_tasks methods host url t0).0 ≡ true
    unfolding error failure method_not_found_error Errors.new
    run_tasks-passes t0 lacks fits =
        let (uuid, w0) = base.new_uuid t0 in
        let id : String = "conformance-" <> uuid in
        let (w1, e1, lacks1) = get-Unknown id w0 lacks in
        let (w2, e2, lacks2) = cancel-Unknown id w1 lacks1 in
        let (w3, e3, lacks3) = update-Unknown id w2 lacks2 in
        let refused =
          dispatch_of_unknown wire show iterate state (sent "tasks/list" (object end)) w3
            tasks_list-not-IsKnown in
        (run_tasks_iff methods host url t0).1 (
          rw
            (
              answers "tasks/get" (known id) w0 w1 (missing id) fits.fits_get e1,
              answers "tasks/cancel" (known id) w1 w2 (missing id) fits.fits_cancel e2,
              answers "tasks/update" (change id) w2 w3 (missing id) fits.fits_update e3,
              answers "tasks/list" (object end) w3 w3 _ fits.fits_list refused,
            )
            (
              (_, _, refl, refl, refl),
              (_, _, refl, refl, refl),
              (_, _, refl, refl, refl),
              (_, _, refl, refl, refl),
            ))
