-- ===== src/Core/Jsonrpc/Laws.antt =====
-- Reading back what the envelopes were built from.
use longhaul.Base.{String, ◌≡◌, refl, ◌⊎◌, inl, inr, none, some, arith, ok, Result-cases}
use longhaul.Json.{Value, Serde}
use longhaul.Core.Errors.{ErrorObject}
use longhaul.Core.Tag.{tag}
use longhaul.Core.Jsonrpc.{
  Version, ResponsePayload, RequestId, Request, with_params, params_as, Response, success_payload,
  failure_payload, success, failure, result, error,
}

-- A request built from typed parameters carries the id and method that it was given, and its
-- parameters read back as the ones that went in, if serde reads what it wrote.
pub params_as-with_params :
    {P : Type 0} (serde : Serde P)
    → ((p : P) (v : Value) → serde.to_value p ≡ ok v → serde.from_value v ≡ ok p)
    → (id : RequestId) (method : String) (params : P) (request : Request)
    → with_params serde id method params ≡ ok request
    → (params_as serde request ≡ ok params) × (request.id ≡ id) × (request.method ≡ method)
unfolding with_params params_as
params_as-with_params serde back id method params request h =
    elim (Result-cases (serde.to_value params)) [
      | inl (v, e) ↦ ground (arith, e, back params v e)
      | inr (m, e) ↦ ground (arith, e)
    ]

abbrev Parts : Response → Type 0
Parts r =
    ((v : Value) × (r ≡ success r.id v) × (result r ≡ some v) × (error r ≡ none))
    ⊎ ((e : ErrorObject) × (r ≡ failure r.id e) × (result r ≡ none) × (error r ≡ some e))

Parts-of :
    (version : Version) (id : RequestId) (payload : ResponsePayload)
    → Parts (record { jsonrpc = version; id = id; payload = payload })
unfolding success failure result error
Parts-of tag id (success_payload v) = inl (v, refl, refl, refl)
Parts-of tag id (failure_payload e) = inr (e, refl, refl, refl)

-- A response has either a result or an error object, never both and never neither, and is the
-- response that was built from it.
pub response_parts :
    (r : Response)
    → ((v : Value) × (r ≡ success r.id v) × (result r ≡ some v) × (error r ≡ none))
      ⊎ ((e : ErrorObject) × (r ≡ failure r.id e) × (result r ≡ none) × (error r ≡ some e))
response_parts r = Parts-of r.jsonrpc r.id r.payload
