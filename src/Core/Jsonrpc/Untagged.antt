-- ===== src/Core/Jsonrpc/Untagged.antt =====
-- longhaul-core/src/jsonrpc.rs: writing a `Message`, and reading one by its shape. serde writes an
-- untagged enum as its variant, and reads it by the first variant, in their order, that can be read.
mod Tests
use longhaul.Base.{
  ℕ, zero, suc, ◌+◌, ◌-◌, ◌*◌, ◌%◌, ◌^◌, ◌≤◌, ◌<◌, max, String, ◌≡◌, refl, sym, ap, ◌∙◌, fun_ext,
  ◌≢◌, ◌↔◌, ◌⊎◌, inl, inr, Bool, true, false, not, ◌&&◌, ◌||◌, Option, none, some, List, [], ◌∷◌,
  ◌++◌, map, arith, eq_iff, eq_refl, ltb, leb, if◌then◌else◌, ◌<>◌, ◌==◌, Bool-cases, Option-cases,
  some_injective, length, Result, ok, err, ok_or, map_err, and_then, map_ok, Result-cases,
  ok_injective,
}
use longhaul.Json.{Value, ValueMethods, Serde}
use longhaul.Core.Jsonrpc.{
  Request, Notification, Response, Message, request, notification, response,
}

-- the derived conversions of the variants
pub record Envelopes : Type 0 where
  pub request_serde : Serde Request
  pub notification_serde : Serde Notification
  pub response_serde : Serde Response

module _ (envelopes : Envelopes) where
  unfoldable pub write_message : Message → Result Value String
  write_message (request r) = envelopes.request_serde.to_value r
  write_message (notification n) = envelopes.notification_serde.to_value n
  write_message (response r) = envelopes.response_serde.to_value r

  -- the variants from the third, the second and the first on
  abbrev as_response : Result Response String → Result Message String
  as_response (ok r) = ok (response r)
  as_response (err e) = err "data did not match any variant of untagged enum Message"

  abbrev as_notification :
      Result Notification String → Result Message String → Result Message String
  as_notification (ok n) rest = ok (notification n)
  as_notification (err e) rest = rest

  abbrev as_request : Result Request String → Result Message String → Result Message String
  as_request (ok r) rest = ok (request r)
  as_request (err e) rest = rest

  unfoldable pub read_message : Value → Result Message String
  read_message v = as_request (envelopes.request_serde.from_value v) (
      as_notification (envelopes.notification_serde.from_value v)
        (as_response (envelopes.response_serde.from_value v)))
