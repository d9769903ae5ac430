-- ===== src/Core/Tools/Schema/Tests.antt =====
-- A concrete schema at the bound.
use longhaul.Base.{◌≤◌, ◌≡◌, refl, ◌↔◌, true, arith, ok}
use longhaul.Json.{Value, string, array, object, nil, cons, end, field}
use longhaul.Core.Tools.{default_max_schema_depth}
use longhaul.Core.Tools.Schema.{validate_schema}
use longhaul.Core.Tools.Schema.Suite.{
  schema_depth_bound_is_exact, depth_bomb_is_rejected, boolean_schemas_are_valid,
  non_object_non_bool_is_not_a_schema,
}
use longhaul.Core.Tools.Schema.Bomb.{nested_value_lem}
use longhaul.Core.Tools.Schema.Depth.{height, IsSchema, validate_schema_iff}

abbrev schema : Value
schema =
    object (field "type" (string "object") (field "required" (array (cons (string "id") nil)) end))

height-schema : height schema ≡ 3
unfolding height
height-schema = refl

validate_schema_iff_example :
    (validate_schema schema 3 ≡ ok tt) ↔ (IsSchema schema × (height schema ≤ 3))
validate_schema_iff_example = validate_schema_iff schema 3

-- the tests of the module pass; the deep document is judged by its height, and not walked here
bound_passes : schema_depth_bound_is_exact ≡ true
unfolding schema_depth_bound_is_exact
bound_passes = rw (nested_value_lem 8 8 (omega arith), nested_value_lem 9 8 (omega arith)) refl

bomb_passes : depth_bomb_is_rejected ≡ true
unfolding depth_bomb_is_rejected
bomb_passes = rw (nested_value_lem 200_000 default_max_schema_depth (omega arith)) refl

others_pass : (boolean_schemas_are_valid ≡ true) × (non_object_non_bool_is_not_a_schema ≡ true)
unfolding boolean_schemas_are_valid non_object_non_bool_is_not_a_schema validate_schema
others_pass = (refl, refl)
