-- ===== src/Json/Sample.antt =====
-- Concrete methods of `Value`: a member of an object is its first field of the name.
use longhaul.Base.{String, ◌≡◌, refl, Option, none, some, map, arith, if◌then◌else◌, ◌==◌}
use longhaul.Json.{Value, string, object, Fields, end, field, ValueMethods}

abbrev find : Fields → String → Option Value
find end k = none
find (field j v map) k = if j == k then some v else find map k

abbrev member : Value → String → Option Value
member (object map) k = find map k
member _ k = none

abbrev text : Value → Option String
text (string s) = some s
text _ = none

pub text-some : (v : Value) (s : String) → text v ≡ some s → v ≡ string s
text-some (string t) s h = ground arith
text-some _ s h = cc

abbrev pub sample_methods : ValueMethods
sample_methods = record {
  get = member;
  map_get = find;
  map_insert = field;
  as_str = text;
  as_str-string = λ s. refl;
  as_str-some = text-some;
}
