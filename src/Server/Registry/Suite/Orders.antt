-- ===== src/Server/Registry/Suite/Orders.antt =====
-- The test of the sorting under every order of visiting the map.
use longhaul.Base.{◌≡◌, refl, sym, ◌∙◌, true, List, eq_iff}
use longhaul.Base.Order.{str_cmp}
use longhaul.Base.Dict
use longhaul.Base.Dict.{Dict}
use longhaul.Json.{ValueMethods}
use longhaul.Server.Registry.{
  ToolEntry, from_entries, insert_all, all_sorted, get, sort_by_name, insert_sorted, list_result,
}
use longhaul.Server.Registry.Sorting.{find_named}
use longhaul.Server.Registry.Listing.{VisitsOnce, all_sorted-Ascending, Ascending-unique}
use longhaul.Server.Registry.Suite.{
  echo, make_tool, three, registry_sorts_tools_by_name, registry_list_result_includes_all_tools,
  registry_get_returns_none_for_unknown,
}

module _ (methods : ValueMethods) (W : Type 0) where
  three_once : VisitsOnce Dict.values (three methods W).tools
  unfolding from_entries insert_all make_tool echo Dict.values Dict.get Dict.insert find_named
  three_once = record {
    distinct = (
      (λ h. cc ((eq_iff "alpha" "zebra").1 h), (λ h. cc ((eq_iff "middle" "zebra").1 h), tt)),
      ((λ h. cc ((eq_iff "middle" "alpha").1 h), tt), (tt, tt)),
    );
    finds = λ name. refl;
  }

  in_list_order : registry_sorts_tools_by_name methods W Dict.values ≡ true
  unfolding registry_sorts_tools_by_name all_sorted sort_by_name insert_sorted from_entries
      insert_all make_tool echo Dict.values Dict.insert str_cmp
  in_list_order = refl

  -- The test of the sorting passes in whatever order the map is visited.
  registry_sorts_lem :
      (iterate : Dict (ToolEntry W) → List (ToolEntry W))
      → VisitsOnce iterate (three methods W).tools
      → registry_sorts_tools_by_name methods W iterate ≡ true
  unfolding registry_sorts_tools_by_name
  registry_sorts_lem iterate once =
      let (asc, finds) = all_sorted-Ascending iterate (three methods W) once in
      let (asc', finds') = all_sorted-Ascending Dict.values (three methods W) three_once in
      rw
        (Ascending-unique (all_sorted iterate (three methods W))
          (all_sorted Dict.values (three methods W)) asc asc'
          (λ name. finds name ∙ sym (finds' name)))
        in_list_order

  -- the two other tests
  others_pass :
      (registry_list_result_includes_all_tools methods W Dict.values ≡ true)
      × (registry_get_returns_none_for_unknown methods W ≡ true)
  unfolding registry_list_result_includes_all_tools registry_get_returns_none_for_unknown all_sorted
      sort_by_name insert_sorted list_result get from_entries insert_all make_tool echo Dict.values
      Dict.insert Dict.get str_cmp
  others_pass = (refl, refl)
