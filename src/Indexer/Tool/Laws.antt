-- ===== src/Indexer/Tool/Laws.antt =====
-- What each call of `index_directory` does: which task it starts, what it asks, what it refuses.
use longhaul.Base.{
  ◌+◌, ◌≤◌, String, ◌≡◌, refl, sym, ◌∙◌, ◌⊎◌, inl, inr, true, false, Option, none, some, List, [],
  ◌∷◌, arith, eq_refl, Bool-cases, Option-cases, length, Result, ok, err, Result-cases,
}
use longhaul.Base.Dict
use mathlib.Core.Path.{subst}
use longhaul.Json.{string, Fields, ValueMethods}
use longhaul.Core.Tasks.{Task, new, new_handle}
use longhaul.Core.Tools.Outcome.{ToolCallOutcome, task, input_required, option_and_then}
use longhaul.Server.Store.{StoreError, TaskStore}
use longhaul.Server.Store.Contract.{View, IsFault, Implements, write}
use longhaul.Server.Registry.{ToolError, invalid_params}
use longhaul.Indexer.Tool.{
  Platform, Failure, refused, panicked, IndexerState, spawn_index_task, handle_retry, candidates_of,
  asked, ask, choose, first_call, call, contains,
}

module _ (p : Platform) {S : Type 0} (methods : ValueMethods) (view : S → View)
    (store : TaskStore S) (keep : Task → Task) (impl : Implements view store keep) where
  open p use {
    PathBuf, path_of, lossy, same_path, exists, is_dir, entries, token_text, token_from, debug,
    uuid,
  }

  abbrev pub Answer : Type 0
  Answer = Result ToolCallOutcome Failure × IndexerState p S

  -- A task with a fresh id was started for a directory: the store shows it as working, its sender is
  -- kept, its workers run, and the client has its handle. Or the insertion of that task into the
  -- store is a fault, which is answered, and nothing was started.
  abbrev pub Starts : PathBuf → IndexerState p S → Answer → Type 0
  Starts dir s r =
      ((r.0 ≡ ok (task (new_handle (new (uuid s.drawn)))))
        × ((k : String)
            → view r.1.state k ≡ write (uuid s.drawn) (keep (new (uuid s.drawn))) (view s.state) k)
        × (r.1.started ≡ (uuid s.drawn, dir) ∷ s.started)
        × (Dict.get r.1.cancel_txs (uuid s.drawn) ≡ some tt)
        × (r.1.drawn ≡ s.drawn + 1))
      ⊎ (((e : StoreError) × ((store.insert (new (uuid s.drawn)) s.state).0 ≡ err e)
            × IsFault (store.insert (new (uuid s.drawn)) s.state).0
            × (r.0 ≡ err (refused (ToolError.store e))))
          × ((k : String) → view r.1.state k ≡ view s.state k)
          × (r.1.started ≡ s.started))

  pub spawn-Starts :
      (dir : PathBuf) (s : IndexerState p S) → Starts dir s (spawn_index_task p methods store dir s)
  unfolding spawn_index_task new new_handle
  spawn-Starts dir s =
      let t : Task = new (uuid s.drawn) in
      elim (impl.insert_meets t s.state) [
        | inl (q, same) ↦ rw q (
            inl (
              refl,
              same,
              refl,
              Dict.get-insert (uuid s.drawn) (uuid s.drawn) tt s.cancel_txs
                  ∙ (rw (eq_refl (uuid s.drawn)) refl),
              refl,
            ))
        | inr (f, same) ↦ elim (Result-cases (store.insert t s.state).0) [
          | inl (u, q) ↦ absurd (rw q at f)
          | inr (e, q) ↦ rw q (inr ((e, refl, rw q at f, refl), same, refl))
        ]
      ]

  abbrev pub IsInvalid : Answer → Type 0
  IsInvalid r = (m : String) × (r.0 ≡ err (refused (invalid_params m)))

  abbrev pub selected : Fields → Option String
  selected ir = option_and_then (methods.map_get ir "selectedPath") methods.as_str

  -- A retry starts a task only for a path that is among the candidates of its token; every other
  -- retry is refused as invalid parameters and changes nothing.
  pub handle_retry_lem :
      (ir : Fields) (token : String) (s : IndexerState p S)
      → ((cs : List PathBuf) × (chosen : String) × (token_from token ≡ ok cs)
          × (selected ir ≡ some chosen)
          × (contains p methods store cs (path_of chosen) ≡ true)
          × Starts (path_of chosen) s (handle_retry p methods store ir token s))
        ⊎ (IsInvalid (handle_retry p methods store ir token s)
            × ((handle_retry p methods store ir token s).1 ≡ s))
  unfolding handle_retry
  handle_retry_lem ir token s = elim (Result-cases (token_from token)) [
    | inr (e, q) ↦ rw q (inr ((_, refl), refl))
    | inl (cs, q) ↦ rw q (elim (Option-cases (selected ir)) [
      | inl n ↦ rw n (inr ((_, refl), refl))
      | inr (chosen, c) ↦ rw c (elim (Bool-cases (contains p methods store cs (path_of chosen))) [
        | inl offered ↦
            rw offered (inl (cs, chosen, refl, refl, offered, spawn-Starts (path_of chosen) s))
        | inr other ↦ rw other (inr ((_, refl), refl))
      ])
    ])
  ]

  -- the cases of an initial call for an argument `path`, each with its answer
  pub data FirstCall (path_str : String) (s : IndexerState p S) (r : Answer) : Type 0 where
    absent : exists (path_of path_str) ≡ false → r.1 ≡ s → IsInvalid r → FirstCall path_str s r
    plain :
        exists (path_of path_str) ≡ true
        → is_dir (path_of path_str) ≡ false
        → Starts (path_of path_str) s r
        → FirstCall path_str s r
    none_found :
        exists (path_of path_str) ≡ true
        → is_dir (path_of path_str) ≡ true
        → candidates_of p methods store (entries (path_of path_str)) ≡ []
        → Starts (path_of path_str) s r
        → FirstCall path_str s r
    one_found :
        (c : PathBuf)
        → exists (path_of path_str) ≡ true
        → is_dir (path_of path_str) ≡ true
        → candidates_of p methods store (entries (path_of path_str)) ≡ c ∷ []
        → Starts c s r
        → FirstCall path_str s r
    several :
        (cs : List PathBuf) (token : String)
        → exists (path_of path_str) ≡ true
        → is_dir (path_of path_str) ≡ true
        → candidates_of p methods store (entries (path_of path_str)) ≡ cs
        → 2 ≤ length cs
        → token_text cs ≡ some token
        → r ≡ (ok (input_required (asked p methods store cs token)), s)
        → FirstCall path_str s r
    unwritable :
        (cs : List PathBuf)
        → exists (path_of path_str) ≡ true
        → is_dir (path_of path_str) ≡ true
        → candidates_of p methods store (entries (path_of path_str)) ≡ cs
        → 2 ≤ length cs
        → token_text cs ≡ none
        → ((m : String) × (r ≡ (err (panicked m), s)))
        → FirstCall path_str s r

  choose_lem :
      (path_str : String) (s : IndexerState p S) (cs : List PathBuf)
      → exists (path_of path_str) ≡ true
      → is_dir (path_of path_str) ≡ true
      → candidates_of p methods store (entries (path_of path_str)) ≡ cs
      → FirstCall path_str s (choose p methods store (path_of path_str) cs s)
  unfolding choose ask
  choose_lem path_str s [] x d e = none_found x d e (spawn-Starts (path_of path_str) s)
  choose_lem path_str s (c ∷ []) x d e = one_found c x d e (spawn-Starts c s)
  choose_lem path_str s (c ∷ c' ∷ cs) x d e = elim (Option-cases (token_text (c ∷ c' ∷ cs))) [
    | inl n ↦ unwritable (c ∷ c' ∷ cs) x d e (omega arith) n (rw n (_, refl))
    | inr (token, t) ↦ several (c ∷ c' ∷ cs) token x d e (omega arith) t (rw t refl)
  ]

  -- An initial call with a path starts one task, for the path itself or for its only sub-directory
  -- with "src" in its name; or it asks which of several it should be, or refuses a path that does
  -- not exist, or panics where a candidate has no text, and then nothing is started or changed. Where
  -- a task should start and its insertion is a fault of the store, that is the answer, and no task
  -- starts.
  pub first_call_lem :
      (path_str : String) (s : IndexerState p S)
      → FirstCall path_str s (first_call p methods store path_str s)
  unfolding first_call
  first_call_lem path_str s = elim (Bool-cases (exists (path_of path_str))) [
    | inr gone ↦ absent gone (rw gone refl) (rw gone (_, refl))
    | inl there ↦ elim (Bool-cases (is_dir (path_of path_str))) [
      | inr other ↦
          rw (there, first_call, other) (plain there other (spawn-Starts (path_of path_str) s))
      | inl dir ↦
          rw (there, first_call, dir)
            (choose_lem path_str s (candidates_of p methods store (entries (path_of path_str)))
              there dir refl)
    ]
  ]

  retry_accepted :
      (ir : Fields) (token : String) (s : IndexerState p S) (cs : List PathBuf) (chosen : String)
      → token_from token ≡ ok cs
      → selected ir ≡ some chosen
      → contains p methods store cs (path_of chosen) ≡ true
      → handle_retry p methods store ir token s
        ≡ spawn_index_task p methods store (path_of chosen) s
  unfolding handle_retry
  retry_accepted ir token s cs chosen q sel offered = rw (q, sel, offered) refl

  -- The question and its answer fit: where the token's codec reads what it wrote, a retry that
  -- echoes the request state of a question and selects the text of an offered candidate starts the
  -- task for that candidate, if its path is read back from its text.
  pub call-asked :
      (cs : List PathBuf) (token : String) (c : PathBuf) (args : Option Fields) (ir : Fields)
      (s : IndexerState p S)
      → token_from token ≡ ok cs
      → contains p methods store cs c ≡ true
      → path_of (lossy c) ≡ c
      → methods.map_get ir "selectedPath" ≡ some (string (lossy c))
      → Starts c s (
          call p methods store args
            (some ir)
            (some (asked p methods store cs token).request_state)
            s)
  unfolding call
  call-asked cs token c args ir s codec offered text answer =
      let sel : selected ir ≡ some (lossy c) = rw answer (methods.as_str-string (lossy c)) in
      rw (retry_accepted ir token s cs (lossy c) codec sel (rw text offered)) (
        subst (λ d. Starts c s (spawn_index_task p methods store d s)) (sym text)
          (spawn-Starts c s))
