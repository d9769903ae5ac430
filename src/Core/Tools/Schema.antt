-- ===== src/Core/Tools/Schema.antt =====
-- longhaul-core/src/tools.rs: `validate_schema`, the bound on the nesting of a carried schema, and
-- `Tool::validate_schemas`.
mod Depth
mod Bomb
mod Suite
mod Tests
use longhaul.Base.{
  ℕ, ◌+◌, ◌-◌, ◌<◌, String, not, Option, none, some, map, ltb, if◌then◌else◌, ◌<>◌, Result, ok, err,
  and_then,
}
use longhaul.Json.{
  Value, null, bool, number, string, array, object, Items, nil, cons, Fields, end, field,
}
use longhaul.Core.Tools.{Tool}

pub data SchemaError : Type 0 where
  not_a_schema : String → SchemaError
  too_deep : ℕ → SchemaError

-- `Display for SchemaError`; `show` prints a number in decimal
abbrev pub display_schema_error : (ℕ → String) → SchemaError → String
display_schema_error show (not_a_schema found) =
    "not a JSON Schema 2020-12 document: expected object or boolean, found " <> found
display_schema_error show (too_deep max_depth) =
    "schema nests deeper than the bound of " <> show max_depth

abbrev pub Checked : Type 0
Checked = Result (Unit {0}) SchemaError

-- `try_for_each` goes on with the next child if the one before was accepted.
mutual
  pub check_depth : Value → ℕ → ℕ → Checked
  check_depth (array items) depth max_depth =
      if ltb max_depth depth
      then err (too_deep max_depth)
      else check_items items (depth + 1) max_depth
  check_depth (object map) depth max_depth =
      if ltb max_depth depth
      then err (too_deep max_depth)
      else check_fields map (depth + 1) max_depth
  check_depth null depth max_depth = if ltb max_depth depth then err (too_deep max_depth) else ok tt
  check_depth (bool b) depth max_depth =
      if ltb max_depth depth then err (too_deep max_depth) else ok tt
  check_depth (number n) depth max_depth =
      if ltb max_depth depth then err (too_deep max_depth) else ok tt
  check_depth (string s) depth max_depth =
      if ltb max_depth depth then err (too_deep max_depth) else ok tt

  pub check_items : Items → ℕ → ℕ → Checked
  check_items nil depth max_depth = ok tt
  check_items (cons item items) depth max_depth =
      and_then (check_depth item depth max_depth) (λ _. check_items items depth max_depth)

  pub check_fields : Fields → ℕ → ℕ → Checked
  check_fields end depth max_depth = ok tt
  check_fields (field k item map) depth max_depth =
      and_then (check_depth item depth max_depth) (λ _. check_fields map depth max_depth)

pub validate_schema : Value → ℕ → Checked
unfolding check_depth
validate_schema (object map) max_depth = check_depth (object map) 1 max_depth
validate_schema (bool b) max_depth = check_depth (bool b) 1 max_depth
validate_schema null max_depth = err (not_a_schema "null")
validate_schema (number n) max_depth = err (not_a_schema "number")
validate_schema (string s) max_depth = err (not_a_schema "string")
validate_schema (array items) max_depth = err (not_a_schema "array")

validate_optional : Option Value → ℕ → Checked
unfolding validate_schema
validate_optional none max_depth = ok tt
validate_optional (some out) max_depth = validate_schema out max_depth

-- `Tool::validate_schemas`
pub validate_schemas : Tool → ℕ → Checked
unfolding validate_schema validate_optional
validate_schemas tool max_depth =
    and_then (validate_schema tool.input_schema max_depth)
      (λ _. validate_optional tool.output_schema max_depth)
