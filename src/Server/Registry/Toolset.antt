-- ===== src/Server/Registry/Toolset.antt =====
-- A registry as a set of tools: what was registered, up to the order of different names and the
-- entries that a later one of the same name has replaced. The list of `from_entries` and the map
-- that it builds are two representations of such a set.
use mathlib.Core.Path.{subst}
use mathlib.Core.Quot
use mathlib.Core.Quot.{Quot, Quot-set}
use text.Mathlib.TextEquality.{IsScalar-prop}
use longhaul.Base.{
  String, ◌≡◌, refl, sym, ap, ◌∙◌, ◌≢◌, inl, inr, some, List, [], ◌∷◌, ◌++◌, map, arith, eq_iff,
  if◌then◌else◌, ◌==◌, Bool-cases,
}
use longhaul.Base.Dict
use longhaul.Base.Dict.{Dict}
use longhaul.Core.Tools.{Tool, ListToolsResult}
use longhaul.Server.Registry.{
  ToolEntry, name_of, insert_all, from_entries, get, all_sorted, list_result,
}
use longhaul.Server.Registry.Lookup.{last_named, get-from_entries}
use longhaul.Server.Registry.Sorting.{find_named, Absent, HasDistinctNames}
use longhaul.Server.Registry.Listing.{VisitsOnce, all_sorted-Ascending, Ascending-unique}

module _ {W : Type 0} where
  -- A map of entries under their names, each name once.
  abbrev Keyed : Dict (ToolEntry W) → Type 0
  Keyed [] = Unit
  Keyed ((k, e) ∷ m) = (k ≡ name_of e) × Absent (name_of e) (Dict.values m) × Keyed m

  Absent-insert :
      (name : String) (e : ToolEntry W) (m : Dict (ToolEntry W))
      → name_of e ≢ name
      → Absent name (Dict.values m)
      → Absent name (Dict.values (Dict.insert (name_of e) e m))
  unfolding Dict.values Dict.insert
  Absent-insert name e [] ne h = (ne, tt)
  Absent-insert name e ((k, d) ∷ m) ne (h, hs) = elim (Bool-cases (k == name_of e)) [
    | inl same ↦ rw same (ne, hs)
    | inr other ↦ rw other (h, Absent-insert name e m ne hs)
  ]

  insert-Keyed :
      (e : ToolEntry W) (m : Dict (ToolEntry W)) → Keyed m → Keyed (Dict.insert (name_of e) e m)
  unfolding Dict.values Dict.insert
  insert-Keyed e [] _ = (refl, tt, tt)
  insert-Keyed e ((k, d) ∷ m) (q, absent, h) = elim (Bool-cases (k == name_of e)) [
    | inl same ↦
        let q' : k ≡ name_of e = (eq_iff k (name_of e)).0 same in
        rw same (q', subst (λ n. Absent n (Dict.values m)) (sym q ∙ q') absent, h)
    | inr other ↦ rw other (
      q,
      Absent-insert (name_of d) e m (ground (arith, other, q, eq_iff k (name_of e))) absent,
      insert-Keyed e m h,
    )
  ]

  insert_all-Keyed :
      (entries : List (ToolEntry W)) (m : Dict (ToolEntry W))
      → Keyed m
      → Keyed (insert_all entries m)
  unfolding insert_all
  insert_all-Keyed [] m h = h
  insert_all-Keyed (e ∷ entries) m h =
      insert_all-Keyed entries (Dict.insert (name_of e) e m) (insert-Keyed e m h)

  Keyed-distinct : (m : Dict (ToolEntry W)) → Keyed m → HasDistinctNames (Dict.values m)
  unfolding Dict.values
  Keyed-distinct [] _ = tt
  Keyed-distinct ((k, e) ∷ m) (_, absent, h) = (absent, Keyed-distinct m h)

  Keyed-finds :
      (name : String) (m : Dict (ToolEntry W))
      → Keyed m
      → find_named name (Dict.values m) ≡ Dict.get m name
  unfolding Dict.values Dict.get find_named
  Keyed-finds name [] _ = refl
  Keyed-finds name ((k, e) ∷ m) (q, _, h) = rw (q, Keyed-finds name m h) refl

  -- A map that is visited in the order of its list is visited as the documentation says.
  pub values-VisitsOnce :
      (entries : List (ToolEntry W)) → VisitsOnce Dict.values (from_entries entries).tools
  unfolding from_entries
  values-VisitsOnce entries =
      let keyed = insert_all-Keyed entries [] tt in
      record {
        distinct = Keyed-distinct (insert_all entries []) keyed;
        finds = λ name. Keyed-finds name (insert_all entries []) keyed;
      }

  -- the same tools in the end
  abbrev pub SameTools : List (ToolEntry W) → List (ToolEntry W) → Type 0
  SameTools entries entries' = (name : String) → last_named name entries ≡ last_named name entries'

  -- Registries that were made from the same tools list them alike, whatever was registered first,
  -- whatever was registered under a name before its last entry, and however each map is visited.
  pub list_result_of_SameTools :
      (iterate iterate' : Dict (ToolEntry W) → List (ToolEntry W))
      (entries entries' : List (ToolEntry W))
      → VisitsOnce iterate (from_entries entries).tools
      → VisitsOnce iterate' (from_entries entries').tools
      → SameTools entries entries'
      → list_result iterate (from_entries entries) ≡ list_result iterate' (from_entries entries')
  unfolding list_result
  list_result_of_SameTools iterate iterate' entries entries' once once' same =
      let (asc, finds) = all_sorted-Ascending iterate (from_entries entries) once in
      let (asc', finds') = all_sorted-Ascending iterate' (from_entries entries') once' in
      let alike : (name : String)
          → get (from_entries entries) name ≡ get (from_entries entries') name =
        λ name. get-from_entries name entries ∙ same name ∙ sym (get-from_entries name entries') in
      rw
        (Ascending-unique (all_sorted iterate (from_entries entries))
          (all_sorted iterate' (from_entries entries')) asc asc'
          (λ name. finds name ∙ alike name ∙ sym (finds' name)))
        refl

abbrev pub Toolset : Type 0 → Type 0
Toolset W = Quot (SameTools {W = W})

abbrev listed : {W : Type 0} → List (ToolEntry W) → List String
listed entries = map (λ (t : Tool). t.name) (list_result Dict.values (from_entries entries)).tools

String_list_set : IsSet (List String)
String_list_set = hlevel IsScalar-prop

-- the names that `tools/list` gives for a set of tools
pub names_of : {W : Type 0} → Toolset W → List String
names_of {W} = Quot.lift String_list_set listed (λ entries entries' same.
    ap (λ (r : ListToolsResult). map (λ (t : Tool). t.name) r.tools)
      (list_result_of_SameTools Dict.values Dict.values entries entries' (values-VisitsOnce entries)
        (values-VisitsOnce entries') same))

last_named-snoc :
    {W : Type 0} (name : String) (entries : List (ToolEntry W)) (e : ToolEntry W)
    → last_named name (entries ++ (e ∷ []))
      ≡ (if name_of e == name then some e else last_named name entries)
unfolding last_named
last_named-snoc name [] e = refl
last_named-snoc name (d ∷ entries) e = elim (Bool-cases (name_of e == name)) [
  | inl same ↦ rw (last_named-snoc name entries e, same) refl
  | inr other ↦ rw (last_named-snoc name entries e, other) refl
]

-- one more registration
pub register : {W : Type 0} → ToolEntry W → Toolset W → Toolset W
register e =
    Quot.lift Quot-set (λ entries. Quot.mk (entries ++ (e ∷ [])))
      (λ entries entries' same. Quot.sound (λ name.
        rw (last_named-snoc name entries e, last_named-snoc name entries' e, same name) refl))

-- Registrations under different names may change places.
register_comm :
    {W : Type 0} (e d : ToolEntry W)
    → name_of e ≢ name_of d
    → (s : Toolset W) → register e (register d s) ≡ register d (register e s)
unfolding register
register_comm e d ne =
    Quot.ind (λ q. Quot-set _ _)
      (λ entries. Quot.sound (λ name.
        rw
          (
            last_named-snoc name (entries ++ (d ∷ [])) e,
            last_named-snoc name entries d,
            last_named-snoc name (entries ++ (e ∷ [])) d,
            last_named-snoc name entries e,
          )
          (ground (arith, eq_iff (name_of e) name, eq_iff (name_of d) name, ne))))

-- A registration replaces the one before it under the same name.
register_again :
    {W : Type 0} (e d : ToolEntry W)
    → name_of e ≡ name_of d
    → (s : Toolset W) → register e (register d s) ≡ register e s
unfolding register
register_again e d same =
    Quot.ind (λ q. Quot-set _ _)
      (λ entries. Quot.sound (λ name.
        rw
          (
            last_named-snoc name (entries ++ (d ∷ [])) e,
            last_named-snoc name entries d,
            last_named-snoc name entries e,
          )
          (ground (arith, same))))

-- The names that a registry lists are a function of the set of tools that it was made from: however
-- its map is visited, they are the names of the class of its entries.
pub names_of-mk :
    {W : Type 0} (iterate : Dict (ToolEntry W) → List (ToolEntry W)) (entries : List (ToolEntry W))
    → VisitsOnce iterate (from_entries entries).tools
    → map (λ (t : Tool). t.name) (list_result iterate (from_entries entries)).tools
      ≡ names_of (Quot.mk entries)
unfolding names_of
names_of-mk iterate entries once =
    ap (λ (r : ListToolsResult). map (λ (t : Tool). t.name) r.tools)
      (list_result_of_SameTools iterate Dict.values entries entries once (values-VisitsOnce entries)
        (λ name. refl))
