-- ===== src/Core/Tools/Schema/Depth.antt =====
-- `validate_schema` against the height of the document: the bound is exact, and the walk makes no
-- more nested calls than the bound allows, however deep the document is.
use longhaul.Base.{ℕ, suc, ◌+◌, ◌≤◌, ◌<◌, max, ◌≡◌, ◌↔◌, map, arith, ltb, if◌then◌else◌, ok, err}
use longhaul.Json.{
  Value, null, bool, number, string, array, object, Items, nil, cons, Fields, end, field,
}
use longhaul.Core.Tools.Schema.{
  too_deep, check_depth, check_items, check_fields, validate_schema, Checked,
}

-- The height of a document in container levels: a scalar or an empty container has height 1.
unfoldable mutual
  pub height : Value → ℕ
  height null = 1
  height (bool b) = 1
  height (number n) = 1
  height (string s) = 1
  height (array items) = suc (height_items items)
  height (object map) = suc (height_fields map)

  pub height_items : Items → ℕ
  height_items nil = 0
  height_items (cons x items) = max (height x) (height_items items)

  pub height_fields : Fields → ℕ
  height_fields end = 0
  height_fields (field k x map) = max (height x) (height_fields map)

-- What the walk answers at a node of height `h` that it meets at a depth.
abbrev verdict : ℕ → ℕ → ℕ → Checked
verdict h depth max_depth =
    if ltb (max_depth + 1) (h + depth) then err (too_deep max_depth) else ok tt

mutual
  unfolding check_depth height

  check_depth-eq :
      (v : Value) (depth max_depth : ℕ)
      → check_depth v depth max_depth ≡ verdict (height v) depth max_depth
  check_depth-eq null depth max_depth = ground arith
  check_depth-eq (bool b) depth max_depth = ground arith
  check_depth-eq (number n) depth max_depth = ground arith
  check_depth-eq (string s) depth max_depth = ground arith
  check_depth-eq (array items) depth max_depth =
      ground (arith, check_items-eq items (depth + 1) max_depth)
  check_depth-eq (object map) depth max_depth =
      ground (arith, check_fields-eq map (depth + 1) max_depth)

  check_items-eq :
      (items : Items) (depth max_depth : ℕ)
      → depth ≤ max_depth + 1
      → check_items items depth max_depth ≡ verdict (height_items items) depth max_depth
  check_items-eq nil depth max_depth h = ground arith
  check_items-eq (cons x items) depth max_depth h =
      ground (arith, check_depth-eq x depth max_depth, check_items-eq items depth max_depth h)

  check_fields-eq :
      (map : Fields) (depth max_depth : ℕ)
      → depth ≤ max_depth + 1
      → check_fields map depth max_depth ≡ verdict (height_fields map) depth max_depth
  check_fields-eq end depth max_depth h = ground arith
  check_fields-eq (field k x map) depth max_depth h =
      ground (arith, check_depth-eq x depth max_depth, check_fields-eq map depth max_depth h)

-- What the top level of a JSON Schema document may be.
abbrev pub IsSchema : Value → Type 0
IsSchema (bool b) = Unit
IsSchema (object map) = Unit
IsSchema _ = ⊥

-- A document is accepted exactly when it is an object or a boolean whose height, in container
-- levels, is within the bound: the bound itself is accepted and one level more is not.
pub validate_schema_iff :
    (v : Value) (max_depth : ℕ)
    → (validate_schema v max_depth ≡ ok tt) ↔ (IsSchema v × (height v ≤ max_depth))
unfolding validate_schema
validate_schema_iff (object map) max_depth = (
  λ h. (tt, ground (arith, check_depth-eq (object map) 1 max_depth)),
  λ h. ground (arith, check_depth-eq (object map) 1 max_depth),
)
validate_schema_iff (bool b) max_depth = (
  λ h. (tt, ground (arith, check_depth-eq (bool b) 1 max_depth)),
  λ h. ground (arith, check_depth-eq (bool b) 1 max_depth),
)
validate_schema_iff _ max_depth = (λ h. cc, λ h. absurd h.0)

-- A document that is a schema and is refused is refused as too deep, with the bound in the error.
pub validate_schema-too_deep :
    (v : Value) (max_depth : ℕ)
    → IsSchema v
    → max_depth < height v
    → validate_schema v max_depth ≡ err (too_deep max_depth)
unfolding validate_schema
validate_schema-too_deep (object map) max_depth s h =
    ground (arith, check_depth-eq (object map) 1 max_depth)
validate_schema-too_deep (bool b) max_depth s h =
    ground (arith, check_depth-eq (bool b) 1 max_depth)
validate_schema-too_deep _ max_depth s h = absurd s
