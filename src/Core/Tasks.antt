-- ===== src/Core/Tasks.antt =====
-- longhaul-core/src/tasks.rs: the task object, its life cycle and the shapes of the Tasks
-- extension. A method on `&mut Task` is an action of `Exec Task`.
pub mod Lifecycle
pub mod Suite
mod Tests
use longhaul.Base.{String, Bool, true, false, ◌<>◌, if◌then◌else◌, Option, none, List, [], ◌∷◌}
use longhaul.Base.Exec.{Exec, pure, raise, modify, gets, ◌>>=◌, ◌>>◌}
use longhaul.Json.{Fields, end}
use longhaul.Core.Meta.{Meta}
use longhaul.Core.Tag.{StringTag, tag}

abbrev pub method_get : String
method_get = "tasks/get"

abbrev pub method_update : String
method_update = "tasks/update"

abbrev pub method_cancel : String
method_cancel = "tasks/cancel"

pub data TaskStatus : Type 0 where
  working input_required completed failed cancelled : TaskStatus

-- `TaskStatus::ALL`
abbrev pub all_statuses : List TaskStatus
all_statuses = working ∷ input_required ∷ completed ∷ failed ∷ cancelled ∷ []

unfoldable pub as_str : TaskStatus → String
as_str working = "working"
as_str input_required = "inputRequired"
as_str completed = "completed"
as_str failed = "failed"
as_str cancelled = "cancelled"

unfoldable pub is_terminal : TaskStatus → Bool
is_terminal completed = true
is_terminal failed = true
is_terminal cancelled = true
is_terminal _ = false

-- the derived `PartialEq`
abbrev pub same_status : TaskStatus → TaskStatus → Bool
same_status working working = true
same_status input_required input_required = true
same_status completed completed = true
same_status failed failed = true
same_status cancelled cancelled = true
same_status _ _ = false

unfoldable pub can_transition_to : TaskStatus → TaskStatus → Bool
can_transition_to working input_required = true
can_transition_to working completed = true
can_transition_to working failed = true
can_transition_to working cancelled = true
can_transition_to input_required working = true
can_transition_to input_required failed = true
can_transition_to input_required cancelled = true
can_transition_to _ _ = false

pub record InvalidTransition : Type 0 where
  pub from : TaskStatus
  pub to : TaskStatus

-- `Display for InvalidTransition`
pub display_invalid_transition : InvalidTransition → String
unfolding as_str
display_invalid_transition e = "illegal task transition: " <> as_str e.from <> " -> " <> as_str e.to

pub data CancelOutcome : Type 0 where
  now_cancelled : CancelOutcome
  already_terminal : TaskStatus → CancelOutcome

pub record Task : Type 0 where
  pub id : String
  pub status : TaskStatus
  pub meta : Option Meta
  pub extra : Fields

-- `Task::new`
unfoldable pub new : String → Task
new id = record { id = id; status = working; meta = none; extra = end }

unfoldable pub transition_to : TaskStatus → Exec Task InvalidTransition Unit
transition_to next = do
  status ← gets (λ t. t.status)
  if can_transition_to status next
      then modify (λ t. record t { status = next })
      else raise (record { from = status; to = next })

-- `Task::cancel` never fails, so it returns the outcome beside the task.
unfoldable pub cancel : Task → CancelOutcome × Task
cancel t =
    if is_terminal t.status
    then (already_terminal t.status, t)
    else (now_cancelled, record t { status = cancelled })

abbrev pub TaskTag : Type 0
TaskTag = StringTag "task"

pub record TaskHandleResult : Type 0 where
  pub result_type : TaskTag
  pub task : Task
  pub meta : Option Meta

-- `TaskHandleResult::new`
unfoldable pub new_handle : Task → TaskHandleResult
new_handle task = record { result_type = tag; task = task; meta = none }

abbrev pub InputRequiredTag : Type 0
InputRequiredTag = StringTag "inputRequired"

pub record InputRequiredResult : Type 0 where
  pub result_type : InputRequiredTag
  pub input_requests : Fields
  pub request_state : String
  pub meta : Option Meta

pub record GetTaskParams : Type 0 where
  pub task_id : String
  pub meta : Option Meta

pub record UpdateTaskParams : Type 0 where
  pub task_id : String
  pub status : TaskStatus
  pub meta : Option Meta

pub record CancelTaskParams : Type 0 where
  pub task_id : String
  pub meta : Option Meta
