-- ===== src/Server/Registry/Suite.antt =====
-- longhaul-server/src/registry.rs, the module `tests`: each test says whether all its assertions
-- hold. `iterate` is the order in which `HashMap::values` visits the entries.
pub mod Orders
use longhaul.Base.{
  ℕ, ◌<◌, String, Bool, true, false, not, ◌&&◌, Option, none, some, List, [], ◌∷◌, ◌<>◌, ◌==◌,
  length, ok,
}
use longhaul.Base.Int.{same_ℕ}
use longhaul.Base.Dict.{Dict}
use longhaul.Base.Exec.{Exec}
use longhaul.Json.{ValueMethods, Fields, string, object, field, end}
use longhaul.Core.Tools.{Tool}
use longhaul.Core.Tools.Outcome.{option_and_then}
use longhaul.Server.Registry.{
  ToolEntry, ToolHandler, Registry, name_of, from_entries, get, all_sorted, list_result, ok_text,
}

abbrev is_some : {A : Type 0} → Option A → Bool
is_some none = false
is_some (some a) = true

abbrev message_or_empty : Option String → String
message_or_empty none = "(empty)"
message_or_empty (some msg) = msg

abbrev has_ttl : Option ℕ → Bool
has_ttl none = false
has_ttl (some ttl) = same_ℕ ttl 60_000

module _ (methods : ValueMethods) (W : Type 0) where
  -- `Echo::call`
  unfoldable pub echo : ToolHandler W
  echo args responses state w =
      let found = option_and_then args (λ a. methods.map_get a "message") in
      (ok (ok_text (message_or_empty (option_and_then found methods.as_str))), w)

  unfoldable pub make_tool : String → ToolEntry W
  unfolding echo
  make_tool name = record {
    definition = record {
      name = name;
      title = none;
      description = some (name <> " tool");
      input_schema = object (field "type" (string "object") end);
      output_schema = none;
      meta = none;
      extra = end;
    };
    handler = echo;
  }

  abbrev pub three : Registry W
  three = from_entries (make_tool "zebra" ∷ make_tool "alpha" ∷ make_tool "middle" ∷ [])

  -- the names at the places 0, 1 and 2
  abbrev starts_with : List String → List (ToolEntry W) → Bool
  starts_with [] entries = true
  starts_with (name ∷ names) [] = false
  starts_with (name ∷ names) (e ∷ entries) = name_of e == name && starts_with names entries

  unfoldable pub registry_sorts_tools_by_name : (Dict (ToolEntry W) → List (ToolEntry W)) → Bool
  unfolding all_sorted make_tool from_entries
  registry_sorts_tools_by_name iterate =
      starts_with ("alpha" ∷ "middle" ∷ "zebra" ∷ []) (all_sorted iterate three)

  unfoldable pub registry_list_result_includes_all_tools :
      (Dict (ToolEntry W) → List (ToolEntry W)) → Bool
  unfolding list_result make_tool from_entries
  registry_list_result_includes_all_tools iterate =
      let result = list_result iterate (from_entries (make_tool "a" ∷ make_tool "b" ∷ [])) in
      same_ℕ (length result.tools) 2 && has_ttl result.ttl_ms

  unfoldable pub registry_get_returns_none_for_unknown : Bool
  unfolding get make_tool from_entries
  registry_get_returns_none_for_unknown =
      let reg = from_entries (make_tool "known" ∷ []) in
      not (is_some (get reg "unknown")) && is_some (get reg "known")
