-- ===== src/Indexer/Walk.antt =====
-- examples/indexer/src/main.rs: which files a walk indexes, and in which order.
use longhaul.Base.{
  ℕ, suc, String, ◌≡◌, refl, sym, ap, ◌∙◌, ◌⊎◌, inl, inr, Bool, true, List, [], ◌∷◌, ◌++◌,
  Bool-cases,
}
use longhaul.Indexer.{
  IndexResult, default_result, File, Entry, dir, file, broken, Entries, nil, cons, index_file,
  visit, walk_entries, walk_dir, walk_and_index,
}

-- the files below an entry in the order in which `read_dir` gives them
unfoldable mutual
  pub entry_files : Entry → List File
  entry_files (dir es) = files_in es
  entry_files (file f) = f ∷ []
  entry_files _ = []

  pub files_in : Entries → List File
  files_in nil = []
  files_in (cons e es) = entry_files e ++ files_in es

-- the files below the root of a walk, of which there are none unless it is a directory
unfoldable pub files_below : Entry → List File
files_below (dir es) = files_in es
files_below _ = []

pub append_nil : (xs : List File) → xs ++ [] ≡ xs
append_nil [] = refl
append_nil (x ∷ xs) = ap (λ ys. x ∷ ys) (append_nil xs)

append_assoc : (xs ys zs : List File) → (xs ++ ys) ++ zs ≡ xs ++ (ys ++ zs)
append_assoc [] ys zs = refl
append_assoc (x ∷ xs) ys zs = ap (λ l. x ∷ l) (append_assoc xs ys zs)

module _ (lower : String → String) where
  -- Every file of a list is indexed, one after the other.
  unfoldable pub index_all : List File → IndexResult → IndexResult
  index_all [] acc = acc
  index_all (f ∷ fs) acc = index_all fs (index_file lower f acc)

  index_all-append :
      (fs gs : List File) (acc : IndexResult)
      → index_all (fs ++ gs) acc ≡ index_all gs (index_all fs acc)
  unfolding index_all
  index_all-append [] gs acc = refl
  index_all-append (f ∷ fs) gs acc = index_all-append fs gs (index_file lower f acc)

  module _ (cancelled : ℕ → Bool)
      (mono : (n : ℕ) → cancelled n ≡ true → cancelled (suc n) ≡ true) where
    -- A first part of the files was indexed, and all of them unless the walk was cancelled.
    abbrev pub Indexes : List File → IndexResult → IndexResult × ℕ → Type 0
    Indexes fs acc s =
        (done : List File) × (rest : List File) × (fs ≡ done ++ rest)
        × (s.0 ≡ index_all done acc)
        × ((rest ≡ []) ⊎ (cancelled s.1 ≡ true))

    abbrev Stuck : IndexResult × ℕ → IndexResult × ℕ → Type 0
    Stuck s s' = cancelled s.1 ≡ true → (s'.0 ≡ s.0) × (cancelled s'.1 ≡ true)

    walk_entries-Stuck :
        (es : Entries) (s : IndexResult × ℕ) → Stuck s (walk_entries lower cancelled es s)
    unfolding walk_entries
    walk_entries-Stuck nil s h = (refl, h)
    walk_entries-Stuck (cons broken es) (acc, n) h = walk_entries-Stuck es (acc, n) h
    walk_entries-Stuck (cons _ es) (acc, n) h = rw h (refl, mono n h)

    Indexes-join :
        (fs gs : List File) (acc : IndexResult) (s s' : IndexResult × ℕ)
        → Indexes fs acc s
        → Indexes gs s.0 s'
        → Stuck s s'
        → Indexes (fs ++ gs) acc s'
    Indexes-join fs gs acc s s' (d, r, e, q, inl all) (d', r', e', q', t) stuck = (
      d ++ d',
      r',
      ap (λ l. l ++ gs) (e ∙ ap (λ l. d ++ l) all ∙ append_nil d)
          ∙ ap (λ l. d ++ l) e'
          ∙ sym (append_assoc d d' r'),
      q' ∙ ap (index_all d') q ∙ sym (index_all-append d d' acc),
      t,
    )
    Indexes-join fs gs acc s s' (d, r, e, q, inr stopped) _ stuck = (
      d,
      r ++ gs,
      ap (λ l. l ++ gs) e ∙ append_assoc d r gs,
      (stuck stopped).0 ∙ q,
      inr (stuck stopped).1,
    )

    mutual
      unfolding visit index_all entry_files

      visit-Indexes :
          (e : Entry) (acc : IndexResult) (n : ℕ)
          → Indexes (entry_files e) acc (visit lower cancelled e (acc, n))
      visit-Indexes (dir es) acc n = elim (Bool-cases (cancelled n)) [
        | inl stop ↦ rw stop ([], files_in es, refl, refl, inr (mono n stop))
        | inr go ↦ rw go (walk_entries-Indexes es acc (suc n))
      ]
      visit-Indexes (file f) acc n = (f ∷ [], [], refl, refl, inl refl)
      visit-Indexes _ acc n = ([], [], refl, refl, inl refl)

      walk_entries-Indexes :
          (es : Entries) (acc : IndexResult) (n : ℕ)
          → Indexes (files_in es) acc (walk_entries lower cancelled es (acc, n))
      walk_entries-Indexes nil acc n = ([], [], refl, refl, inl refl)
      walk_entries-Indexes (cons broken es) acc n = walk_entries-Indexes es acc n
      walk_entries-Indexes (cons e es) acc n = elim (Bool-cases (cancelled n)) [
        | inl stop ↦ rw stop ([], files_in (cons e es), refl, refl, inr (mono n stop))
        | inr go ↦
            let s : IndexResult × ℕ = visit lower cancelled e (acc, suc n) in
            rw go (
              Indexes-join (entry_files e) (files_in es) acc s (walk_entries lower cancelled es s)
                (visit-Indexes e acc (suc n)) (walk_entries-Indexes es s.0 s.1)
                (walk_entries-Stuck es s))
      ]

    walk_dir-Indexes :
        (e : Entry) (acc : IndexResult) (n : ℕ)
        → Indexes (files_below e) acc (walk_dir lower cancelled e (acc, n))
    unfolding walk_dir files_below files_in entry_files index_all
    walk_dir-Indexes (dir es) acc n = visit-Indexes (dir es) acc n
    walk_dir-Indexes _ acc n = ([], [], refl, refl, inl refl)

    -- A walk indexes the files below its root one after the other in the order of `read_dir`, each
    -- once, and none where the root is no readable directory. It stops after some of them only if
    -- it has been cancelled, where a cancellation is not taken back.
    pub walk_and_index-prefix :
        (e : Entry)
        → (done : List File) × (rest : List File) × (files_below e ≡ done ++ rest)
          × (walk_and_index lower cancelled e ≡ index_all done default_result)
          × ((rest ≡ []) ⊎ ((n : ℕ) × (cancelled n ≡ true)))
    unfolding walk_and_index
    walk_and_index-prefix e =
        let (d, r, q, h, end) = walk_dir-Indexes e default_result 0 in
        (d, r, q, h, elim end [ inl all ↦ inl all | inr stop ↦ inr (_, stop) ])
