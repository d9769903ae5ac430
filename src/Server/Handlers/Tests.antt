-- ===== src/Server/Handlers/Tests.antt =====
-- Requests to a server over the memory store.
use longhaul.Base.{String, [], ◌∷◌, ◌≡◌, refl, some, Result, ok, false, none}
use longhaul.Base.Dict
use longhaul.Base.Dict.{Dict}
use longhaul.Base.Int.{pos}
use longhaul.Json.{string, object, field, end}
use longhaul.Core.Errors.{ErrorObject, new, invalid_params}
use longhaul.Core.Tasks.{
  Task, is_terminal, working, as_str, can_transition_to, GetTaskParams, UpdateTaskParams,
  CancelTaskParams, method_get, method_update, method_cancel,
}
use longhaul.Core.Jsonrpc.{Request, number, failure, params_as, error, Response}
use longhaul.Server.Store.Status.{parse_status}
use longhaul.Server.Store.Memory.{MemoryStore, memory_store}
use longhaul.Server.Store.Refines.{memory_view, memory_store-Implements}
use longhaul.Server.Handlers.Idempotence.{dispatch-cancel_twice}
use longhaul.Core.Tasks
use longhaul.Server.Handlers.{handle_tasks_cancel, dispatch, handle_tasks_update, store_err_to_rpc}
use longhaul.Server.Handlers.Envelope.{CodeFor, id-dispatch}
use longhaul.Core.Tools.{method_list, method_call}
use longhaul.Server.Store.{StoreError}
use longhaul.Server.Store.Memory
use longhaul.Server.Store.Contract.{View, spec_get, spec_update, spec_cancel}
use longhaul.Server.Handlers.Sample.{wire, show, state, shelf, request, done}
use longhaul.Server.Handlers.Refines.{Follows, task_methods-Follows}
use longhaul.Server.Handlers.ToolCalls.{ToolCall, dispatch-ToolCall}

abbrev late : Request
late =
    request method_update
      (object (field "taskId" (string "job") (field "status" (string "inputRequired") end)))

-- a finished task is asked to wait for input
late_refused : dispatch wire show Dict.values state late shelf ≡ (
  failure
      (number (pos 1))
      (new invalid_params "Illegal task transition: completed -> inputRequired"),
  shelf,
)
unfolding dispatch handle_tasks_update params_as parse_status Dict.get can_transition_to
    memory_store Memory.update store_err_to_rpc as_str failure new
late_refused = refl

abbrev Followed :
    Result Task StoreError × View → Result Task StoreError → Response × MemoryStore → Type 0
Followed spec answer r = Follows wire show Dict.values state memory_view late shelf spec answer r

task_methods-Follows_example :
    ((p : GetTaskParams)
      → method_update ≡ method_get
      → params_as wire.get_task_params late ≡ ok p
      → Followed
          (spec_get p.task_id (memory_view shelf))
          (memory_store.get p.task_id shelf).0
          (dispatch wire show Dict.values state late shelf))
    × ((p : UpdateTaskParams)
        → method_update ≡ method_update
        → params_as wire.update_task_params late ≡ ok p
        → Followed
            (spec_update p (memory_view shelf))
            (memory_store.update p shelf).0
            (dispatch wire show Dict.values state late shelf))
    × ((p : CancelTaskParams)
        → method_update ≡ method_cancel
        → params_as wire.cancel_task_params late ≡ ok p
        → Followed
            (spec_cancel p.task_id (memory_view shelf))
            (memory_store.cancel p.task_id shelf).0
            (dispatch wire show Dict.values state late shelf))
task_methods-Follows_example =
    task_methods-Follows wire show Dict.values state memory_view (λ t. t) memory_store-Implements
      late shelf

abbrev grep_call : Request
grep_call = request method_call (object (field "name" (string "grep") end))

dispatch-ToolCall_example :
    ToolCall wire show Dict.values state grep_call shelf
      (dispatch wire show Dict.values state grep_call shelf)
dispatch-ToolCall_example = dispatch-ToolCall wire show Dict.values state grep_call shelf refl

abbrev listing : Request
listing = request method_list (object end)

abbrev removed : Request
removed = request "tasks/list" (object end)

id-dispatch_example :
    ((dispatch wire show Dict.values state removed shelf).0.id ≡ number (pos 1))
    × ((e : ErrorObject)
        → error (dispatch wire show Dict.values state removed shelf).0 ≡ some e
        → CodeFor "tasks/list" e)
id-dispatch_example = id-dispatch wire show Dict.values state removed shelf

abbrev cancel_job : Request
cancel_job = request method_cancel (object (field "taskId" (string "job") end))

abbrev live : MemoryStore
live = record { tasks = ("job", record done { status = working }) ∷ []; poisoned = false }

dispatch-cancel_twice_example :
    let (first, s1) = dispatch wire show Dict.values state cancel_job live in
    let (again, s2) = dispatch wire show Dict.values state cancel_job s1 in
    (again ≡ first) × ((k : String) → memory_view s2 k ≡ memory_view s1 k)
unfolding params_as memory_store Memory.cancel Dict.get Dict.insert Tasks.cancel is_terminal
    dispatch handle_tasks_cancel
dispatch-cancel_twice_example =
    dispatch-cancel_twice wire show Dict.values state memory_view (λ t. t) memory_store-Implements
      cancel_job live (record { task_id = "job"; meta = none }) refl refl (λ f. f) (λ f. f)
