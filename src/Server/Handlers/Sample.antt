-- ===== src/Server/Handlers/Sample.antt =====
-- A server over the memory store, with the conversions that its methods need.
use longhaul.Base.{String, false, none, some, [], ◌∷◌, Result, ok, err, ok_or, map_ok}
use longhaul.Base.Int.{pos}
use longhaul.Json.{Value, string, object, field, end, Serde}
use longhaul.Core.Tag.{tag}
use longhaul.Core.Tasks.{Task, completed, GetTaskParams, UpdateTaskParams, CancelTaskParams}
use longhaul.Core.Jsonrpc.{Request, number}
use longhaul.Server.Store.{SqliteError}
use longhaul.Server.Store.Status.{parse_status}
use longhaul.Server.Store.Memory.{MemoryStore, memory_store}
use longhaul.Server.Handlers.{ServerState, Wire}
use longhaul.Core.Tools.{CallToolParams, new_call}
use longhaul.Server.Registry.Sample.{two}

-- a conversion that no method of these tests uses
abbrev pub closed : {A : Type 0} → Serde A
closed = record { to_value = λ a. err "unsupported"; from_value = λ v. err "unsupported" }

abbrev pub task_value : Task → Result Value String
task_value t = ok (object (field "taskId" (string t.id) end))

abbrev pub get_from : Value → Result GetTaskParams String
get_from (object (field _ (string id) end)) = ok (record { task_id = id; meta = none })
get_from _ = err "expected a task id"

abbrev pub cancel_from : Value → Result CancelTaskParams String
cancel_from (object (field _ (string id) end)) = ok (record { task_id = id; meta = none })
cancel_from _ = err "expected a task id"

abbrev pub update_from : Value → Result UpdateTaskParams String
update_from (object (field _ (string id) (field _ (string status) end))) =
    map_ok (λ s. record { task_id = id; status = s; meta = none })
      (ok_or (parse_status status) "unknown status")
update_from _ = err "expected a task id and a status"

abbrev pub call_from : Value → Result CallToolParams String
call_from (object (field _ (string name) end)) = ok (new_call name)
call_from _ = err "expected a name"

abbrev pub wire : Wire
wire = record {
  discover_result = closed;
  list_tools_params = record {
    to_value = λ a. err "unsupported";
    from_value = λ v. ok (record { cursor = none; meta = none });
  };
  list_tools_result = record {
    to_value = λ r. ok (string "tools");
    from_value = λ v. err "unsupported";
  };
  call_tool_params = record { to_value = λ a. err "unsupported"; from_value = call_from };
  outcome = record { to_value = λ o. ok (string "outcome"); from_value = λ v. err "unsupported" };
  get_task_params = record { to_value = λ a. err "unsupported"; from_value = get_from };
  update_task_params = record { to_value = λ a. err "unsupported"; from_value = update_from };
  cancel_task_params = record { to_value = λ a. err "unsupported"; from_value = cancel_from };
  task = record { to_value = task_value; from_value = λ v. err "unsupported" };
}

abbrev pub show : SqliteError → String
show e = "engine"

abbrev pub state : ServerState MemoryStore
state = record {
  discover_result = record {
    protocol_version = "2026-07-28";
    server_info = record { name = "server"; version = "1"; title = none };
    capabilities = record { tools = none; tasks = none; extra = end };
    instructions = none;
    meta = none;
  };
  registry = two;
  store = memory_store;
}

abbrev pub done : Task
done = record { id = "job"; status = completed; meta = none; extra = end }

abbrev pub shelf : MemoryStore
shelf = record { tasks = ("job", done) ∷ []; poisoned = false }

abbrev pub request : String → Value → Request
request method params = record {
  jsonrpc = tag;
  id = number (pos 1);
  method = method;
  params = some params;
}
