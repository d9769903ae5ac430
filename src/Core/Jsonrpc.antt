-- ===== src/Core/Jsonrpc.antt =====
-- longhaul-core/src/jsonrpc.rs: the envelopes. `params_as` and `with_params` take the conversions
-- that serde derives for the parameter type.
mod Laws
mod Untagged
use longhaul.Base.{String, Option, none, some, Result, map_ok}
use longhaul.Base.Int.{ℤ}
use longhaul.Json.{Value, object, end, Serde}
use longhaul.Core.Tag.{StringTag, tag}
use longhaul.Core.Errors.{ErrorObject}

abbrev pub version_text : String
version_text = "2.0"

abbrev pub Version : Type 0
Version = StringTag "2.0"

pub data RequestId : Type 0 where
  number : ℤ → RequestId
  string : String → RequestId
  null : RequestId

-- `From<i64>`, and `From<&str>` and `From<String>`
abbrev pub from_i64 : ℤ → RequestId
from_i64 n = number n

abbrev pub from_str : String → RequestId
from_str s = string s

-- `Display for RequestId`; `show` prints an integer in decimal
pub display_id : (ℤ → String) → RequestId → String
display_id show (number n) = show n
display_id show (string s) = s
display_id show null = "null"

pub record Request : Type 0 where
  pub jsonrpc : Version
  pub id : RequestId
  pub method : String
  pub params : Option Value

-- `Request::new`
unfoldable pub new_request : RequestId → String → Request
new_request id method = record { jsonrpc = tag; id = id; method = method; params = none }

module _ {P : Type 0} (serde : Serde P) where
  -- `Request::with_params`
  unfoldable pub with_params : RequestId → String → P → Result Request String
  with_params id method params =
      map_ok (λ (v : Value). record { jsonrpc = tag; id = id; method = method; params = some v })
        (serde.to_value params)

  params_of : Option Value → Result P String
  params_of (some v) = serde.from_value v
  params_of none = serde.from_value (object end)

  -- `Request::params_as`: absent `params` are read as `{}`
  unfoldable pub params_as : Request → Result P String
  unfolding params_of
  params_as request = params_of request.params

pub record Notification : Type 0 where
  pub jsonrpc : Version
  pub method : String
  pub params : Option Value

-- `Notification::new`
pub new_notification : String → Notification
new_notification method = record { jsonrpc = tag; method = method; params = none }

pub data ResponsePayload : Type 0 where
  success_payload : Value → ResponsePayload
  failure_payload : ErrorObject → ResponsePayload

pub record Response : Type 0 where
  pub jsonrpc : Version
  pub id : RequestId
  pub payload : ResponsePayload

-- `Response::success`
unfoldable pub success : RequestId → Value → Response
success id result = record { jsonrpc = tag; id = id; payload = success_payload result }

-- `Response::failure`
unfoldable pub failure : RequestId → ErrorObject → Response
failure id error = record { jsonrpc = tag; id = id; payload = failure_payload error }

result_of : ResponsePayload → Option Value
result_of (success_payload v) = some v
result_of (failure_payload e) = none

error_of : ResponsePayload → Option ErrorObject
error_of (success_payload v) = none
error_of (failure_payload e) = some e

-- `Response::result`
unfoldable pub result : Response → Option Value
unfolding result_of
result r = result_of r.payload

-- `Response::error`
unfoldable pub error : Response → Option ErrorObject
unfolding error_of
error r = error_of r.payload

pub data Message : Type 0 where
  request : Request → Message
  notification : Notification → Message
  response : Response → Message
