-- ===== src/Core/Tools/Schema/Bomb.antt =====
-- longhaul-core/src/tools.rs, the documents of the depth tests: any number of nested objects.
use longhaul.Base.{
  ℕ, zero, suc, ◌+◌, ◌-◌, ◌≤◌, ◌≡◌, inl, inr, true, arith, leb, if◌then◌else◌, Bool-cases, ok, err,
}
use longhaul.Json.{Value, bool, object, end, field}
use longhaul.Core.Tools.Schema.{too_deep, validate_schema}
use longhaul.Core.Tools.Schema.Depth.{
  height, IsSchema, validate_schema_iff, validate_schema-too_deep,
}

-- the loop of `nested_value`, a turn for each level but the innermost
pub wrap : ℕ → Value → Value
wrap zero v = v
wrap (suc n) v = wrap n (object (field "items" v end))

unfoldable pub nested_value : ℕ → Value
nested_value levels = wrap (levels - 1) (bool true)

wrap-height : (n : ℕ) (v : Value) → height (wrap n v) ≡ n + height v
unfolding wrap height
wrap-height zero v = omega arith
wrap-height (suc n) v = omega (arith, wrap-height n (object (field "items" v end)))

wrap-IsSchema : (n : ℕ) (v : Value) → IsSchema v → IsSchema (wrap n v)
unfolding wrap
wrap-IsSchema zero v h = h
wrap-IsSchema (suc n) v h = wrap-IsSchema n (object (field "items" v end)) tt

-- The nested objects of the depth tests, with any number of levels from one on and under any bound:
-- they are accepted up to the bound, and refused with the bound in the error from one level more.
pub nested_value_lem :
    (levels max_depth : ℕ)
    → 1 ≤ levels
    → validate_schema (nested_value levels) max_depth
      ≡ (if leb levels max_depth then ok tt else err (too_deep max_depth))
unfolding nested_value height
nested_value_lem levels max_depth h =
    let v = nested_value levels in
    let high : height v ≡ levels = omega (arith, wrap-height (levels - 1) (bool true), h) in
    let schema : IsSchema v = wrap-IsSchema (levels - 1) (bool true) tt in
    elim (Bool-cases (leb levels max_depth)) [
      | inl fits ↦
          rw fits ((validate_schema_iff v max_depth).1 (schema, ground (arith, high, fits)))
      | inr deep ↦
          rw deep (validate_schema-too_deep v max_depth schema (ground (arith, high, deep)))
    ]
