-- ===== src/Json.antt =====
-- `serde_json::Value` as the program sees it: the enum whose variants `validate_schema` matches,
-- and, as parameters, the methods of the library that the program calls on it and the
-- conversions that serde derives for the program's types.
pub mod Sample
use longhaul.Base.{String, Bool, Option, some, ◌≡◌, Result}
use longhaul.Base.Int.{ℤ}

-- `serde_json::Number`: an integer, or the text of a fractional number
pub data Number : Type 0 where
  integer : ℤ → Number
  fraction : String → Number

mutual
  pub data Value : Type 0 where
    null : Value
    bool : Bool → Value
    number : Number → Value
    string : String → Value
    array : Items → Value
    object : Fields → Value

  pub data Items : Type 0 where
    nil : Items
    cons : Value → Items → Items

  -- `serde_json::Map<String, Value>`
  pub data Fields : Type 0 where
    end : Fields
    field : String → Value → Fields → Fields

-- The methods of `Value` and `Map` that the program calls, with what their documentation says of
-- them as far as the program relies on it.
pub record ValueMethods : Type 0 where
  -- `Value::get` with a text, and `Map::get`
  pub get : Value → String → Option Value
  pub map_get : Fields → String → Option Value
  -- `Map::insert`
  pub map_insert : String → Value → Fields → Fields
  -- `Value::as_str`: the text of a `Value::String`, and `None` of any other value
  pub as_str : Value → Option String
  pub as_str-string : (s : String) → as_str (string s) ≡ some s
  pub as_str-some : (v : Value) (s : String) → as_str v ≡ some s → v ≡ string s

-- `serde_json::to_value` and `serde_json::from_value` at a type, as the `Serialize` and
-- `Deserialize` of the type make them; the error is its message.
pub record Serde (A : Type 0) : Type 0 where
  pub to_value : A → Result Value String
  pub from_value : Value → Result A String
