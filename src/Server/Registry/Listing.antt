-- ===== src/Server/Registry/Listing.antt =====
-- The order of `tools/list`.
use Prim.Native.Nat.{Ordering}
use longhaul.Base.{
  String, ◌≡◌, refl, ◌≢◌, none, some, List, [], ◌∷◌, arith, eq_iff, ◌==◌, ap, eq_refl, Bool-cases,
  inl, inr, sym, ◌∙◌,
}
use longhaul.Base.Order.{str_cmp, str_cmp_self, cmp_cases}
use longhaul.Base.Dict
use mathlib.Core.Path.{ap₂, subst}
use longhaul.Server.Registry.{get, ToolEntry, name_of, all_sorted, list_result, Registry}
use longhaul.Base.Dict.{Dict}
use longhaul.Server.Registry.Sorting.{
  After-trans, find_named, After, Ascending, HasDistinctNames, sort_by_name-Ascending,
  find_named-sort_by_name,
}

module _ {W : Type 0} where
  find_named_of_After :
      (name : String) (ys : List (ToolEntry W)) → After name ys → find_named name ys ≡ none
  unfolding find_named
  find_named_of_After name [] _ = refl
  find_named_of_After name (y ∷ ys) (h, hs) =
      ground (arith, find_named_of_After name ys hs, eq_iff (name_of y) name, str_cmp_self name)

  find_named_self :
      (x : ToolEntry W) (xs : List (ToolEntry W)) → find_named (name_of x) (x ∷ xs) ≡ some x
  unfolding find_named
  find_named_self x xs = ground (arith, eq_refl (name_of x))

  -- Lists that find the same under every name, as functions.
  abbrev SameFinds : List (ToolEntry W) → List (ToolEntry W) → Type 0
  SameFinds xs ys = (name : String) → find_named name xs ≡ find_named name ys

  -- The first names of two such lists are in neither order.
  not_before :
      (x y : ToolEntry W) (xs ys : List (ToolEntry W))
      → After (name_of y) ys
      → SameFinds (x ∷ xs) (y ∷ ys)
      → str_cmp (name_of x) (name_of y) ≢ Ordering.lt
  not_before x y xs ys after same lt = cc (
    find_named_self x xs,
    same (name_of x),
    find_named_of_After (name_of x) (y ∷ ys) (lt, After-trans (name_of x) (name_of y) ys lt after),
  )

  heads_equal :
      (x y : ToolEntry W) (xs ys : List (ToolEntry W))
      → After (name_of x) xs
      → After (name_of y) ys
      → SameFinds (x ∷ xs) (y ∷ ys)
      → x ≡ y
  heads_equal x y xs ys after_x after_y same = elim (cmp_cases (name_of x) (name_of y)) [
    | inl lt ↦ absurd (not_before x y xs ys after_y same lt)
    | inr (inl gt) ↦ absurd (not_before y x ys xs after_x (λ name. sym (same name)) gt)
    | inr (inr e) ↦ cc (
      find_named_self x xs,
      find_named_self y ys,
      same (name_of x),
      ap (λ n. find_named n (y ∷ ys)) e,
    )
  ]

  tails_same :
      (x : ToolEntry W) (xs ys : List (ToolEntry W))
      → After (name_of x) xs
      → After (name_of x) ys
      → SameFinds (x ∷ xs) (x ∷ ys)
      → SameFinds xs ys
  unfolding find_named
  tails_same x xs ys after_x after_y same name = elim (Bool-cases (name_of x == name)) [
    | inl e ↦
        let here : name_of x ≡ name = (eq_iff (name_of x) name).0 e in
        cc (
          find_named_of_After (name_of x) xs after_x,
          find_named_of_After (name_of x) ys after_y,
          ap (λ n. find_named n xs) here,
          ap (λ n. find_named n ys) here,
        )
    | inr other ↦ (rw other at (same name))
  ]

  -- An ascending list is determined by what it finds.
  pub Ascending-unique :
      (xs ys : List (ToolEntry W)) → Ascending xs → Ascending ys → SameFinds xs ys → xs ≡ ys
  Ascending-unique [] [] _ _ _ = refl
  Ascending-unique [] (y ∷ ys) _ _ same =
      cc (same (name_of y), find_named_self y ys, find_named_of_After (name_of y) [] tt)
  Ascending-unique (x ∷ xs) [] _ _ same =
      cc (same (name_of x), find_named_self x xs, find_named_of_After (name_of x) [] tt)
  Ascending-unique (x ∷ xs) (y ∷ ys) (ax, hx) (ay, hy) same =
      let e : x ≡ y = heads_equal x y xs ys ax ay same in
      ap₂ ◌∷◌ e (
        Ascending-unique xs ys hx hy (
          tails_same x xs ys ax (subst (λ z. After (name_of z) ys) (sym e) ay)
            (λ name. same name ∙ ap (λ z. find_named name (z ∷ ys)) (sym e))))

  -- The documented behaviour of `HashMap::values`: each entry once, in an order of its own.
  pub record VisitsOnce (iterate : Dict (ToolEntry W) → List (ToolEntry W)) (m : Dict (ToolEntry W))
      : Type 0 where
    pub distinct : HasDistinctNames (iterate m)
    pub finds : (name : String) → find_named name (iterate m) ≡ Dict.get m name

  -- Whatever order the map is visited in, the tools are listed by strictly ascending names, and
  -- the listing holds exactly the registered tools: it finds under a name what the registry does.
  pub all_sorted-Ascending :
      (iterate : Dict (ToolEntry W) → List (ToolEntry W)) (r : Registry W)
      → VisitsOnce iterate r.tools
      → Ascending (all_sorted iterate r)
        × ((name : String) → find_named name (all_sorted iterate r) ≡ get r name)
  unfolding all_sorted get
  all_sorted-Ascending iterate r h = (
    sort_by_name-Ascending (iterate r.tools) h.distinct,
    λ name. find_named-sort_by_name name (iterate r.tools) ∙ h.finds name,
  )

  -- The result of `tools/list` does not depend on the order in which the map is visited.
  pub list_result_unique :
      (iterate iterate' : Dict (ToolEntry W) → List (ToolEntry W)) (r : Registry W)
      → VisitsOnce iterate r.tools
      → VisitsOnce iterate' r.tools
      → list_result iterate r ≡ list_result iterate' r
  unfolding list_result
  list_result_unique iterate iterate' r h h' =
      let (asc, finds) = all_sorted-Ascending iterate r h in
      let (asc', finds') = all_sorted-Ascending iterate' r h' in
      rw (
        Ascending-unique (all_sorted iterate r) (all_sorted iterate' r) asc asc'
          (λ name. finds name ∙ sym (finds' name)))
