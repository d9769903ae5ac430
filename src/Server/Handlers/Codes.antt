-- ===== src/Server/Handlers/Codes.antt =====
-- The error codes of a handler, and answers that keep to them through a `do` block.
use longhaul.Base.{
  String, ◌≡◌, refl, ◌⊎◌, inl, inr, Option, none, some, Result, ok, err, ok_or, map_err,
}
use longhaul.Base.Exec.{Exec, ◌>>=◌, ◌>>◌}
use longhaul.Core.Errors
use longhaul.Core.Errors.{ErrorObject, internal_error, method_not_found}
use longhaul.Core.Jsonrpc.{RequestId, Response, error}
use longhaul.Server.Store.{
  SqliteError, StoreError, not_found, illegal_transition, sqlite, lock_poisoned,
}
use longhaul.Server.Registry.{ToolError, invalid_params, tool_failed, store}
use longhaul.Server.Handlers.{RpcError, bad_params, store_err_to_rpc, tool_err_to_rpc}

abbrev pub HandlerCode : RpcError → Type 0
HandlerCode (code, m) = (code ≡ Errors.invalid_params) ⊎ (code ≡ internal_error)

-- An error that an action answers has one of the two codes of the handlers.
abbrev pub ErrsWell : {A : Type 0} → Result A RpcError → Type 0
ErrsWell (ok a) = Unit
ErrsWell (err e) = HandlerCode e

-- A handler's answer: a success that echoes the id, or an error with one of the two codes.
abbrev pub AnswersWell : RequestId → Result Response RpcError → Type 0
AnswersWell id (ok r) = (r.id ≡ id) × (error r ≡ none)
AnswersWell id (err e) = HandlerCode e

pub store_code :
    (show : SqliteError → String) (e : StoreError) → HandlerCode (store_err_to_rpc show e)
unfolding store_err_to_rpc
store_code show (not_found id) = inl refl
store_code show (illegal_transition from to) = inl refl
store_code show (sqlite e) = inr refl
store_code show lock_poisoned = inr refl

pub tool_code : (show : SqliteError → String) (e : ToolError) → HandlerCode (tool_err_to_rpc show e)
unfolding tool_err_to_rpc
tool_code show (invalid_params msg) = inl refl
tool_code show (tool_failed m) = inr refl
tool_code show (store e) = inr refl

pub ErrsWell-map_err :
    {A E : Type 0} (f : E → RpcError) (r : Result A E)
    → ((e : E) → HandlerCode (f e))
    → ErrsWell (map_err f r)
ErrsWell-map_err f (ok a) h = tt
ErrsWell-map_err f (err e) h = h e

pub ErrsWell-ok_or : {A : Type 0} (o : Option A) (m : String) → ErrsWell (ok_or o (bad_params m))
ErrsWell-ok_or none m = inl refl
ErrsWell-ok_or (some a) m = tt

module _ {W : Type 0} where
  pub AnswersWell-bind :
      {A : Type 0} (id : RequestId) (r : Result A RpcError) (k : A → Exec W RpcError Response)
      (w : W)
      → ErrsWell r
      → ((a : A) (w' : W) → AnswersWell id (k a w').0)
      → AnswersWell id (((λ _. (r, w)) >>= k) w).0
  AnswersWell-bind id (ok a) k w _ h = h a w
  AnswersWell-bind id (err e) k w code _ = code

  pub AnswersWell-then :
      {A : Type 0} (id : RequestId) (r : Result A RpcError) (k : Exec W RpcError Response) (w : W)
      → ErrsWell r
      → ((w' : W) → AnswersWell id (k w').0)
      → AnswersWell id (((λ _. (r, w)) >> k) w).0
  AnswersWell-then id (ok a) k w _ h = h w
  AnswersWell-then id (err e) k w code _ = code
