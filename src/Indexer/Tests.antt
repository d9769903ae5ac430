-- ===== src/Indexer/Tests.antt =====
-- A small tree, walked with and without a cancellation.
use longhaul.Base.{
  ℕ, suc, String, ◌≡◌, refl, ◌⊎◌, Bool, true, false, some, List, [], ◌∷◌, ◌++◌, arith, leb,
  if◌then◌else◌, ◌==◌,
}
use longhaul.Base.Dict
use longhaul.Indexer.{
  default_result, File, Entry, dir, file, broken, nil, cons, visit, walk_dir, walk_and_index,
}
use longhaul.Indexer.Walk.{files_below, index_all, walk_and_index-prefix}

abbrev lower : String → String
lower s = if s == "RS" then "rs" else s

abbrev readme : File
readme = record { extension = "md"; text = some (12, 80) }

abbrev main_file : File
main_file = record { extension = "RS"; text = some (7, 40) }

abbrev tree : Entry
tree = dir (
    cons (file readme)
      (cons broken (cons (dir (cons (file main_file) nil)) (cons (file readme) nil))))

-- the cancellation is seen from the third reading on
abbrev late : ℕ → Bool
late n = leb 2 n

late_stays : (n : ℕ) → late n ≡ true → late (suc n) ≡ true
late_stays n h = ground arith

walk_uncancelled :
    walk_and_index lower (λ n. false) tree
    ≡ record { files = 3; bytes = 200; words_by_ext = ("md", 24) ∷ ("rs", 7) ∷ [] }
unfolding walk_and_index walk_dir visit Dict.insert Dict.get
walk_uncancelled = refl

walk_and_index-prefix_example :
    (done : List File) × (rest : List File) × (files_below tree ≡ done ++ rest)
    × (walk_and_index lower late tree ≡ index_all lower done default_result)
    × ((rest ≡ []) ⊎ ((n : ℕ) × (late n ≡ true)))
walk_and_index-prefix_example = walk_and_index-prefix lower late late_stays tree
