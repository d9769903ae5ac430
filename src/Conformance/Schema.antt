-- ===== src/Conformance/Schema.antt =====
-- longhaul-conformance/src/main.rs, the module `schema`: the validators of the embedded fixtures. The
-- crate jsonschema and the parser of serde_json are the parameter `Validation`.
use longhaul.Base.{
  ℕ, zero, suc, String, ◌≡◌, refl, sym, ◌↔◌, inl, inr, some, List, [], ◌∷◌, ◌<>◌, Option-cases,
  some_injective, Result, ok, err, ok_or, map_err, and_then,
}
use longhaul.Base.Dict
use longhaul.Base.Dict.{Dict}
use mathlib.Core.Path.{subst}
use longhaul.Json.{Value}

pub record Validation : Type 1 where
  pub Validator : Type 0
  -- `serde_json::from_str`, `jsonschema::validator_for`, and `iter_errors` with `to_string`
  pub from_str : String → Result Value String
  pub validator_for : Value → Result Validator String
  pub iter_errors : Validator → Value → List String

unfoldable pub take : ℕ → List String → List String
take zero xs = []
take (suc n) [] = []
take (suc n) (x ∷ xs) = x ∷ take n xs

-- `errors.join("; ")`
unfoldable pub join : List String → String
join [] = ""
join (x ∷ []) = x
join (x ∷ y ∷ xs) = x <> "; " <> join (y ∷ xs)

abbrev pub fixtures : (String → String) → List (String × String)
fixtures include_str =
    ("jsonrpc_request", include_str "../fixtures/jsonrpc_request.schema.json")
    ∷ ("jsonrpc_response", include_str "../fixtures/jsonrpc_response.schema.json")
    ∷ ("tools_list_result", include_str "../fixtures/tools_list_result.schema.json")
    ∷ ("task", include_str "../fixtures/task.schema.json")
    ∷ ("discover_result", include_str "../fixtures/discover_result.schema.json")
    ∷ []

module _ (v : Validation) where
  pub record Schemas : Type 0 where
    pub validators : Dict (Validation.Validator v)

  -- The loop of `Schemas::load` from some validators on; an `err` is the text of a panic.
  unfoldable pub load_all :
      List (String × String) → Dict (Validation.Validator v) → Result Schemas String
  load_all [] m = ok (record { validators = m })
  load_all ((name, src) ∷ fixtures) m =
      and_then (map_err (λ e. "invalid fixture " <> name <> ": " <> e) (v.from_str src)) (λ schema.
        and_then (map_err (λ e. "invalid schema " <> name <> ": " <> e) (v.validator_for schema))
          (λ validator. load_all fixtures (Dict.insert name validator m)))

  -- `Schemas::load`; `include_str` gives the text of a file
  unfoldable pub load : (String → String) → Result Schemas String
  unfolding load_all
  load include_str = load_all (fixtures include_str) []

  verdict : String → List String → Result (Unit {0}) String
  verdict name [] = ok tt
  verdict name (e ∷ errors) = err ("schema " <> name <> " failed: " <> join (take 5 (e ∷ errors)))

  -- `Schemas::validate`
  unfoldable pub validate : Schemas → String → Value → Result (Unit {0}) String
  unfolding verdict
  validate s name value =
      and_then (ok_or (Dict.get s.validators name) ("unknown schema: " <> name))
        (λ validator. verdict name (v.iter_errors validator value))

  verdict_lem : (name : String) (errors : List String) → verdict name errors ≡ ok tt → errors ≡ []
  unfolding verdict
  verdict_lem name [] h = refl
  verdict_lem name (e ∷ errors) h = cc

  -- A value is valid for a name exactly when a schema of the name was loaded and has no error to
  -- report of the value.
  pub validate_iff :
      (s : Schemas) (name : String) (value : Value)
      → (validate s name value ≡ ok tt) ↔ (
          (w : Validation.Validator v) × (Dict.get s.validators name ≡ some w)
          × (v.iter_errors w value ≡ []))
  unfolding validate
  validate_iff s name value = elim (Option-cases (Dict.get s.validators name)) [
    | inl q ↦ rw q (λ h. cc, λ (w, g, _). cc)
    | inr (w, q) ↦ rw q (
      λ h. (w, refl, verdict_lem name _ h),
      λ (x, g, none_left).
          subst (λ es. verdict name es ≡ ok tt)
            (sym (subst (λ y. v.iter_errors y value ≡ []) (sym (some_injective g)) none_left)) refl,
    )
  ]
