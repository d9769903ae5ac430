-- ===== src/Server/Registry/Tests.antt =====
-- Lookup and listing of a registry with two tools, one of which was registered twice.
use longhaul.Base.{ℕ, String, ◌≡◌, sym, List, [], ◌∷◌, arith, eq_iff}
use mathlib.Core.Quot
use longhaul.Server.Registry.Toolset.{
  SameTools, names_of, values-VisitsOnce, list_result_of_SameTools, names_of-mk,
}
use longhaul.Base.Order.{str_cmp}
use longhaul.Base.Dict
use longhaul.Base.Dict.{Dict}
use longhaul.Server.Registry.{
  ToolEntry, from_entries, insert_all, sort_by_name, insert_sorted, get, all_sorted, list_result,
}
use longhaul.Server.Registry.Lookup.{last_named, get-from_entries}
use longhaul.Server.Registry.Sorting.{find_named, Ascending}
use longhaul.Server.Registry.Listing.{all_sorted-Ascending}
use longhaul.Server.Registry.Sample.{entry, two, forwards_once}

abbrev entries : List (ToolEntry ℕ)
entries = entry "grep" "old" ∷ entry "add" "sum" ∷ entry "grep" "new" ∷ []

all_sorted-Ascending_example :
    Ascending {W = ℕ} (all_sorted Dict.values two)
    × ((name : String) → find_named {W = ℕ} name (all_sorted Dict.values two) ≡ get two name)
all_sorted-Ascending_example = all_sorted-Ascending Dict.values two forwards_once

-- the same tools in another order, without the entry that was replaced
abbrev reordered : List (ToolEntry ℕ)
reordered = entry "add" "sum" ∷ entry "grep" "new" ∷ []

entries-SameTools : SameTools entries reordered
unfolding last_named
entries-SameTools name = ground (arith, eq_iff "grep" name, eq_iff "add" name)

list_result_of_SameTools_example :
    list_result Dict.values (from_entries entries)
    ≡ list_result Dict.values (from_entries reordered)
list_result_of_SameTools_example =
    list_result_of_SameTools Dict.values Dict.values entries reordered (values-VisitsOnce entries)
      (values-VisitsOnce reordered) entries-SameTools

two_names : names_of {W = ℕ} (Quot.mk entries) ≡ "add" ∷ "grep" ∷ []
unfolding list_result all_sorted from_entries insert_all sort_by_name insert_sorted str_cmp
    Dict.values Dict.insert
two_names = sym (names_of-mk Dict.values entries (values-VisitsOnce entries))

get-from_entries_example : get {W = ℕ} (from_entries entries) "grep" ≡ last_named "grep" entries
get-from_entries_example = get-from_entries "grep" entries
