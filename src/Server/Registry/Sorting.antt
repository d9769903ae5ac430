-- ===== src/Server/Registry/Sorting.antt =====
-- The sort of `Registry::all_sorted`.
use Prim.Native.Nat.{Ordering}
use longhaul.Base.{
  String, ◌≡◌, refl, ◌≢◌, Option, none, some, List, [], ◌∷◌, arith, eq_iff, if◌then◌else◌, ◌==◌,
}
use longhaul.Base.Order.{str_cmp, str_cmp-eq, str_cmp_self, str_cmp-gt, str_cmp-lt_trans}
use longhaul.Server.Registry.{ToolEntry, name_of, insert_sorted, sort_by_name}

-- the first entry of a name
unfoldable pub find_named : {W : Type 0} → String → List (ToolEntry W) → Option (ToolEntry W)
find_named name [] = none
find_named name (x ∷ xs) = if name_of x == name then some x else find_named name xs

module _ {W : Type 0} where
  -- every name in the list is behind `name`
  abbrev pub After : String → List (ToolEntry W) → Type 0
  After name [] = Unit
  After name (y ∷ ys) = (str_cmp name (name_of y) ≡ Ordering.lt) × After name ys

  abbrev pub Ascending : List (ToolEntry W) → Type 0
  Ascending [] = Unit
  Ascending (x ∷ xs) = After (name_of x) xs × Ascending xs

  abbrev pub Absent : String → List (ToolEntry W) → Type 0
  Absent name [] = Unit
  Absent name (y ∷ ys) = (name_of y ≢ name) × Absent name ys

  abbrev pub HasDistinctNames : List (ToolEntry W) → Type 0
  HasDistinctNames [] = Unit
  HasDistinctNames (x ∷ xs) = Absent (name_of x) xs × HasDistinctNames xs

  After-insert_sorted :
      (name : String) (x : ToolEntry W) (ys : List (ToolEntry W))
      → str_cmp name (name_of x) ≡ Ordering.lt
      → After name ys
      → After name (insert_sorted x ys)
  unfolding insert_sorted
  After-insert_sorted name x [] h _ = (h, tt)
  After-insert_sorted name x (y ∷ ys) h (k, ks) = ground (arith, After-insert_sorted name x ys h ks)

  pub After-trans :
      (m n : String) (ys : List (ToolEntry W)) → str_cmp m n ≡ Ordering.lt → After n ys → After m ys
  After-trans m n [] h _ = tt
  After-trans m n (y ∷ ys) h (k, ks) =
      (str_cmp-lt_trans m n (name_of y) h k, After-trans m n ys h ks)

  insert_sorted-Ascending :
      (x : ToolEntry W) (ys : List (ToolEntry W))
      → Absent (name_of x) ys
      → Ascending ys
      → Ascending (insert_sorted x ys)
  unfolding insert_sorted
  insert_sorted-Ascending x [] _ _ = (tt, tt)
  insert_sorted-Ascending x (y ∷ ys) (ne, absent) (k, ks) = ground (
    arith,
    insert_sorted-Ascending x ys absent ks,
    After-insert_sorted (name_of y) x ys,
    After-trans (name_of x) (name_of y) ys,
    str_cmp-eq (name_of x) (name_of y),
    str_cmp-gt (name_of x) (name_of y),
  )

  find_named-insert_sorted :
      (name : String) (x : ToolEntry W) (ys : List (ToolEntry W))
      → find_named name (insert_sorted x ys)
        ≡ (if name_of x == name then some x else find_named name ys)
  unfolding insert_sorted find_named
  find_named-insert_sorted name x [] = refl
  find_named-insert_sorted name x (y ∷ ys) = ground (
    arith,
    find_named-insert_sorted name x ys,
    eq_iff (name_of x) name,
    eq_iff (name_of y) name,
    str_cmp_self name,
  )

  Absent-insert_sorted :
      (name : String) (x : ToolEntry W) (ys : List (ToolEntry W))
      → name_of x ≢ name
      → Absent name ys
      → Absent name (insert_sorted x ys)
  unfolding insert_sorted
  Absent-insert_sorted name x [] h _ = (h, tt)
  Absent-insert_sorted name x (y ∷ ys) h (k, ks) =
      ground (arith, Absent-insert_sorted name x ys h ks)

  Absent-sort_by_name :
      (name : String) (xs : List (ToolEntry W)) → Absent name xs → Absent name (sort_by_name xs)
  unfolding sort_by_name
  Absent-sort_by_name name [] _ = tt
  Absent-sort_by_name name (x ∷ xs) (h, hs) =
      Absent-insert_sorted name x (sort_by_name xs) h (Absent-sort_by_name name xs hs)

  pub sort_by_name-Ascending :
      (xs : List (ToolEntry W)) → HasDistinctNames xs → Ascending (sort_by_name xs)
  unfolding sort_by_name
  sort_by_name-Ascending [] _ = tt
  sort_by_name-Ascending (x ∷ xs) (absent, h) =
      insert_sorted-Ascending x (sort_by_name xs) (Absent-sort_by_name (name_of x) xs absent)
        (sort_by_name-Ascending xs h)

  pub find_named-sort_by_name :
      (name : String) (xs : List (ToolEntry W))
      → find_named name (sort_by_name xs) ≡ find_named name xs
  unfolding sort_by_name find_named
  find_named-sort_by_name name [] = refl
  find_named-sort_by_name name (x ∷ xs) =
      rw (find_named-insert_sorted name x (sort_by_name xs), find_named-sort_by_name name xs) refl
