-- ===== src/Core/Jsonrpc/Untagged/Tests.antt =====
-- A notification over conversions of envelopes with a textual id, no params and a result.
use longhaul.Base.{String, ◌≡◌, refl, true, Option, none, some, Result, ok, err}
use longhaul.Core.Tag.{tag}
use longhaul.Json.{Value, string, object, field, end}
use longhaul.Json.Sample.{sample_methods}
use longhaul.Core.Jsonrpc.{
  RequestId, Request, Notification, Response, ResponsePayload, success_payload, notification,
}
use longhaul.Core.Jsonrpc.Untagged.{Envelopes, write_message, read_message}

abbrev request_value : RequestId → String → Option Value → Result Value String
request_value (RequestId.string i) m none =
    ok (object (field "id" (string i) (field "method" (string m) end)))
request_value _ _ _ = err "unsupported"

abbrev read_request : Option Value → Option Value → Result Request String
read_request (some (string i)) (some (string m)) =
    ok (record { jsonrpc = tag; id = RequestId.string i; method = m; params = none })
read_request _ _ = err "expected an id and a method"

abbrev notification_value : String → Option Value → Result Value String
notification_value m none = ok (object (field "method" (string m) end))
notification_value _ _ = err "unsupported"

abbrev read_notification : Option Value → Result Notification String
read_notification (some (string m)) = ok (record { jsonrpc = tag; method = m; params = none })
read_notification _ = err "expected a method"

abbrev response_value : RequestId → ResponsePayload → Result Value String
response_value (RequestId.string i) (success_payload v) =
    ok (object (field "id" (string i) (field "result" v end)))
response_value _ _ = err "unsupported"

abbrev read_response : Option Value → Option Value → Result Response String
read_response (some (string i)) (some v) =
    ok (record { jsonrpc = tag; id = RequestId.string i; payload = success_payload v })
read_response _ _ = err "expected an id and a result"

abbrev envelopes : Envelopes
envelopes = record {
  request_serde = record {
    to_value = λ r. request_value r.id r.method r.params;
    from_value = λ v. read_request (sample_methods.get v "id") (sample_methods.get v "method");
  };
  notification_serde = record {
    to_value = λ n. notification_value n.method n.params;
    from_value = λ v. read_notification (sample_methods.get v "method");
  };
  response_serde = record {
    to_value = λ r. response_value r.id r.payload;
    from_value = λ v. read_response (sample_methods.get v "id") (sample_methods.get v "result");
  };
}

abbrev changed : Value
changed = object (field "method" (string "notifications/tools/list_changed") end)

abbrev list_changed : Notification
list_changed = record { jsonrpc = tag; method = "notifications/tools/list_changed"; params = none }

-- a notification is written and read back
there_and_back :
    (write_message envelopes (notification list_changed) ≡ ok changed)
    × (read_message envelopes changed ≡ ok (notification list_changed))
unfolding write_message read_message
there_and_back = (refl, refl)

-- a request whose id is no text or integer passes for a notification
fractional :
    read_message envelopes
      (object (field "id" (Value.bool true) (field "method" (string "tasks/get") end)))
    ≡ ok (notification (record { jsonrpc = tag; method = "tasks/get"; params = none }))
unfolding read_message
fractional = refl
