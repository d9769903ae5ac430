-- ===== src/Server/Registry/Sample.antt =====
-- A registry with two tools, and two orders of visiting it.
use longhaul.Base.{String, ◌≡◌, refl, Bool, true, false, none, List, [], ◌∷◌, eq_iff, ◌==◌, ok}
use longhaul.Base.Dict
use longhaul.Base.Dict.{Dict}
use mathlib.Core.Path.{subst}
use longhaul.Json.{null, end}
use longhaul.Server.Registry.{ToolEntry, Registry, ok_text}
use longhaul.Server.Registry.Sorting.{find_named}
use longhaul.Server.Registry.Listing.{VisitsOnce}

module _ {W : Type 0} where
  abbrev pub entry : String → String → ToolEntry W
  entry name answer = record {
    definition = record {
      name = name;
      title = none;
      description = none;
      input_schema = null;
      output_schema = none;
      meta = none;
      extra = end;
    };
    handler = λ arguments responses state w. (ok (ok_text answer), w);
  }

  abbrev pub two : Registry W
  two = record { tools = ("grep", entry "grep" "new") ∷ ("add", entry "add" "sum") ∷ [] }

  abbrev pub swapped : List (ToolEntry W) → List (ToolEntry W)
  swapped (x ∷ y ∷ xs) = y ∷ x ∷ xs
  swapped xs = xs

  abbrev pub backwards : Dict (ToolEntry W) → List (ToolEntry W)
  backwards m = swapped (Dict.values m)

  pub forwards_once : VisitsOnce Dict.values two.tools
  unfolding Dict.values Dict.get find_named
  forwards_once = record {
    distinct = ((λ h. cc ((eq_iff "add" "grep").1 h), tt), (tt, tt));
    finds = λ name. refl;
  }

  pub backwards_finds :
      (name : String) (b : Bool)
      → ("grep" == name) ≡ b
      → find_named name (backwards two.tools) ≡ Dict.get two.tools name
  unfolding Dict.values Dict.get find_named
  backwards_finds name true h =
      subst (λ n. find_named n (backwards two.tools) ≡ Dict.get two.tools n)
        ((eq_iff "grep" name).0 h) refl
  backwards_finds name false h = rw h refl

  pub backwards_once : VisitsOnce backwards two.tools
  unfolding Dict.values Dict.get find_named
  backwards_once = record {
    distinct = ((λ h. cc ((eq_iff "grep" "add").1 h), tt), (tt, tt));
    finds = λ name. backwards_finds name ("grep" == name) refl;
  }
