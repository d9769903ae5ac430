-- ===== src/Server/Registry/Lookup.antt =====
-- Looking tools up by name.
use longhaul.Base.{
  String, ◌≡◌, refl, ◌∙◌, inl, inr, Option, none, some, List, [], ◌∷◌, arith, if◌then◌else◌, ◌==◌,
  Option-cases,
}
use longhaul.Base.Dict
use longhaul.Base.Dict.{Dict, get-insert}
use longhaul.Server.Registry.{ToolEntry, name_of, insert_all, from_entries, get}

-- The entry that a name stands for in a list of entries: the last one of that name.
unfoldable pub last_named : {W : Type 0} → String → List (ToolEntry W) → Option (ToolEntry W)
last_named name [] = none
last_named name (entry ∷ entries) = elim (last_named name entries) [
  | some later ↦ some later
  | none ↦ if name_of entry == name then some entry else none
]

abbrev or_else {ℓ} : {A : Type ℓ} → Option A → Option A → Option A
or_else none o = o
or_else (some a) o = some a

or_else-none {ℓ} : {A : Type ℓ} (o : Option A) → or_else o none ≡ o
or_else-none none = refl
or_else-none (some a) = refl

module _ {W : Type 0} where
  get-insert_all :
      (name : String) (entries : List (ToolEntry W)) (m : Dict (ToolEntry W))
      → Dict.get (insert_all entries m) name ≡ or_else (last_named name entries) (Dict.get m name)
  unfolding insert_all last_named
  get-insert_all name [] m = refl
  get-insert_all name (entry ∷ entries) m = elim (Option-cases (last_named name entries)) [
    | inl q ↦
        rw
          (
            get-insert_all name entries (Dict.insert (name_of entry) entry m),
            q,
            last_named,
            (get-insert (name_of entry) name entry m),
          )
          (ground arith)
    | inr (e, q) ↦
        rw (get-insert_all name entries (Dict.insert (name_of entry) entry m), q, last_named) refl
  ]

  -- A registry finds a tool under a name exactly if an entry of that name was registered, and then
  -- the last such entry.
  pub get-from_entries :
      (name : String) (entries : List (ToolEntry W))
      → get (from_entries entries) name ≡ last_named name entries
  unfolding get from_entries Dict.get
  get-from_entries name entries =
      get-insert_all name entries [] ∙ or_else-none (last_named name entries)
