-- ===== src/Core/Tools/Outcome/Tests.antt =====
-- Concrete values at the discriminator, with conversions that keep the kind of the payload alone.
use longhaul.Base.{String, ◌≡◌, refl, ◌↔◌, Bool, Option, none, some, List, [], Result, ok, err}
use longhaul.Json.{Value, string, array, object, nil, Fields, end, field}
use longhaul.Json.Sample.{sample_methods}
use longhaul.Core.Meta.{Meta}
use longhaul.Core.Tag.{tag}
use longhaul.Core.Tasks.{
  new, TaskStatus, working, TaskHandleResult, InputRequiredResult, TaskStatus, working,
}
use longhaul.Core.Tools.{CallToolResult, ContentBlock, Fields, Meta}
use longhaul.Core.Tools.Outcome.{
  task, Payloads, deserialize, serialize, result_type, ToolCallOutcome,
}
use longhaul.Core.Tools.Outcome.Laws.{deserialize_iff}

abbrev result : CallToolResult
result = record { content = []; structured_content = none; is_error = none; meta = none }

abbrev handle : TaskHandleResult
handle = record { result_type = tag; task = new "job"; meta = none }

abbrev asked : InputRequiredResult
asked = record { result_type = tag; input_requests = end; request_state = "token"; meta = none }

-- Conversions for the payloads that hold no more than their kind needs; the others are refused.
abbrev content_value :
    List ContentBlock → Option Value → Option Bool → Option Meta → Result Value String
content_value [] none none none = ok (object (field "content" (array nil) end))
content_value _ _ _ _ = err "unsupported"

abbrev content_from : Value → Result CallToolResult String
content_from (object (field _ (array nil) end)) = ok result
content_from _ = err "unsupported"

abbrev asked_value : Fields → String → Option Meta → Result Value String
asked_value end state none =
    ok (
      object
        (field "resultType" (string "inputRequired") (field "requestState" (string state) end)))
asked_value _ _ _ = err "unsupported"

abbrev asked_from : Value → Result InputRequiredResult String
asked_from (object (field _ _ (field _ (string state) end))) =
    ok (record asked { request_state = state })
asked_from _ = err "unsupported"

abbrev handle_value : String → TaskStatus → Option Meta → Fields → Option Meta → Result Value String
handle_value id working none end none =
    ok (object (field "resultType" (string "task") (field "id" (string id) end)))
handle_value _ _ _ _ _ = err "unsupported"

abbrev handle_from : Value → Result TaskHandleResult String
handle_from (object (field _ _ (field _ (string id) end))) =
    ok (record handle { task = record { id = id; status = working; meta = none; extra = end } })
handle_from _ = err "unsupported"

abbrev payloads : Payloads
payloads = record {
  content_serde = record {
    to_value = λ r. content_value r.content r.structured_content r.is_error r.meta;
    from_value = content_from;
  };
  task_serde = record {
    to_value = λ r. handle_value r.task.id r.task.status r.task.meta r.task.extra r.meta;
    from_value = handle_from;
  };
  input_required_serde = record {
    to_value = λ r. asked_value r.input_requests r.request_state r.meta;
    from_value = asked_from;
  };
}

abbrev quoted : String → String
quoted s = s

abbrev asked_json : Value
asked_json =
    object (field "resultType" (string "inputRequired") (field "requestState" (string "token") end))

abbrev handle_json : Value
handle_json = object (field "resultType" (string "task") (field "id" (string "job") end))

deserialize_iff_example :
    (deserialize sample_methods payloads quoted handle_json ≡ ok (task handle)) ↔ (
      (result_type sample_methods handle_json ≡ some "task")
      × (handle_from handle_json ≡ ok handle))
deserialize_iff_example = deserialize_iff sample_methods payloads quoted handle_json (task handle)

-- each kind is written and read back as itself
kinds_back :
    (deserialize sample_methods payloads quoted handle_json ≡ ok (task handle))
    × (serialize sample_methods payloads quoted (task handle) ≡ ok handle_json)
    × (serialize sample_methods payloads quoted (ToolCallOutcome.input_required asked)
        ≡ ok asked_json)
    × (deserialize sample_methods payloads quoted asked_json
        ≡ ok (ToolCallOutcome.input_required asked))
unfolding serialize deserialize result_type new
kinds_back = (refl, refl, refl, refl)
