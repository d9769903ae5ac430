-- ===== src/Core/Tag.antt =====
-- longhaul-core/src/tag.rs: the macro `string_tag!`, a type with one value that is written as one
-- exact text. `literal` is the macro's `$lit`.
use longhaul.Base.{String, ◌==◌, ◌<>◌, if◌then◌else◌, Result, ok, err, and_then}
use longhaul.Json.{Value, Serde}

pub data StringTag (literal : String) : Type 0 where
  tag : StringTag literal

-- `debug` is the `{:?}` of a text.
module _ (text : Serde String) (debug : String → String) (literal : String) where
  pub serialize : StringTag literal → Result Value String
  serialize tag = text.to_value literal

  check_literal : String → Result (StringTag literal) String
  check_literal s =
      if s == literal
      then ok tag
      else err ("expected the literal string \"" <> literal <> "\", got " <> debug s)

  pub deserialize : Value → Result (StringTag literal) String
  unfolding check_literal
  deserialize v = and_then (text.from_value v) check_literal
