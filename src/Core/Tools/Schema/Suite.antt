-- ===== src/Core/Tools/Schema/Suite.antt =====
-- longhaul-core/src/tools.rs, the tests of `validate_schema`: each says whether all its assertions
-- hold. The end of the test of the deep document, which takes it apart again, is left out.
use longhaul.Base.{ℕ, String, Bool, true, false, ◌&&◌, ◌==◌, ok, err}
use longhaul.Base.Int.{pos, same_ℕ}
use longhaul.Json.{null, bool, number, integer, string, array, nil, cons}
use longhaul.Core.Tools.{default_max_schema_depth}
use longhaul.Core.Tools.Schema.{not_a_schema, too_deep, Checked, validate_schema}
use longhaul.Core.Tools.Schema.Bomb.{nested_value}

abbrev accepted : Checked → Bool
accepted (ok _) = true
accepted (err e) = false

abbrev is_too_deep : ℕ → Checked → Bool
is_too_deep max_depth (err (too_deep m)) = same_ℕ m max_depth
is_too_deep max_depth _ = false

abbrev is_not_a_schema : String → Checked → Bool
is_not_a_schema found (err (not_a_schema f)) = f == found
is_not_a_schema found _ = false

unfoldable pub schema_depth_bound_is_exact : Bool
unfolding validate_schema nested_value
schema_depth_bound_is_exact =
    accepted (validate_schema (nested_value 8) 8)
    && is_too_deep 8 (validate_schema (nested_value 9) 8)

unfoldable pub depth_bomb_is_rejected : Bool
unfolding validate_schema nested_value
depth_bomb_is_rejected =
    let bomb = nested_value 200_000 in
    is_too_deep default_max_schema_depth (validate_schema bomb default_max_schema_depth)

unfoldable pub boolean_schemas_are_valid : Bool
unfolding validate_schema
boolean_schemas_are_valid =
    accepted (validate_schema (bool true) 4) && accepted (validate_schema (bool false) 4)

unfoldable pub non_object_non_bool_is_not_a_schema : Bool
unfolding validate_schema
non_object_non_bool_is_not_a_schema =
    let pair = array (cons (number (integer (pos 1))) (cons (number (integer (pos 2))) nil)) in
    is_not_a_schema "string" (validate_schema (string "x") 4)
    && is_not_a_schema "array" (validate_schema pair 4)
    && is_not_a_schema "null" (validate_schema null 4)
