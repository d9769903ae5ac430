-- ===== src/Core/Tools/Outcome.antt =====
-- longhaul-core/src/tools.rs: `ToolCallOutcome`, its untagged serialisation and its hand-written
-- `Deserialize`, which classifies by the `resultType` discriminator.
mod Laws
mod Tests
use longhaul.Base.{String, ◌==◌, ◌<>◌, if◌then◌else◌, Option, none, some, Result, ok, err, map_ok}
use longhaul.Json.{Value, ValueMethods, Serde}
use longhaul.Core.Tasks.{TaskHandleResult, InputRequiredResult}
use longhaul.Core.Tools.{CallToolResult}

pub data ToolCallOutcome : Type 0 where
  content : CallToolResult → ToolCallOutcome
  task : TaskHandleResult → ToolCallOutcome
  input_required : InputRequiredResult → ToolCallOutcome

-- The conversions that serde derives for the payloads.
pub record Payloads : Type 0 where
  pub content_serde : Serde CallToolResult
  pub task_serde : Serde TaskHandleResult
  pub input_required_serde : Serde InputRequiredResult

-- `Option::and_then`
abbrev pub option_and_then {ℓ κ} : {A : Type ℓ} {B : Type κ} → Option A → (A → Option B) → Option B
option_and_then none f = none
option_and_then (some a) f = f a

-- `value.get("resultType").and_then(Value::as_str)`
unfoldable pub result_type : ValueMethods → Value → Option String
result_type methods v = option_and_then (methods.get v "resultType") methods.as_str

-- `debug` is the `{:?}` of a text.
module _ (methods : ValueMethods) (payloads : Payloads) (debug : String → String) where
  classify : Option String → Value → Result ToolCallOutcome String
  classify none v = map_ok content (payloads.content_serde.from_value v)
  classify (some t) v =
      if t == "task"
      then map_ok task (payloads.task_serde.from_value v)
      else if t == "inputRequired"
      then map_ok input_required (payloads.input_required_serde.from_value v)
      else err ("unknown tools/call resultType: " <> debug t)

  pub deserialize : Value → Result ToolCallOutcome String
  unfolding classify
  deserialize v = classify (result_type methods v) v

  -- `#[serde(untagged)]`: the payload alone is written
  unfoldable pub serialize : ToolCallOutcome → Result Value String
  serialize (content r) = payloads.content_serde.to_value r
  serialize (task r) = payloads.task_serde.to_value r
  serialize (input_required r) = payloads.input_required_serde.to_value r
