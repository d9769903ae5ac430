-- ===== src/Indexer.antt =====
-- examples/indexer/src/main.rs: `walk_and_index`. A directory is the tree of what `read_dir` finds in
-- it; the readings of the cancellation channel are numbered, and `cancelled` says what each finds.
-- Counters are of 64 bits and wrap round, as in a release build.
pub mod Walk
pub mod Worker
pub mod System
pub mod Tool
pub mod Finish
pub mod Start
mod Tests
use longhaul.Base.{
  ℕ, suc, ◌+◌, ◌%◌, ◌^◌, String, Bool, true, false, Option, none, some, [], if◌then◌else◌,
}
use longhaul.Base.Dict
use longhaul.Base.Dict.{Dict}

pub record IndexResult : Type 0 where
  pub files : ℕ
  pub bytes : ℕ
  pub words_by_ext : Dict ℕ

-- `IndexResult::default()`
abbrev pub default_result : IndexResult
default_result = record { files = 0; bytes = 0; words_by_ext = [] }

-- A file: its extension, or no text for none, and the words and bytes of its text, if it is read.
pub record File : Type 0 where
  pub extension : String
  pub text : Option (ℕ × ℕ)

mutual
  -- what an entry of a directory is: `broken` is one that `read_dir` fails on, `special` is neither a
  -- directory nor a file
  pub data Entry : Type 0 where
    dir : Entries → Entry
    locked_dir : Entry
    file : File → Entry
    special : Entry
    broken : Entry

  pub data Entries : Type 0 where
    nil : Entries
    cons : Entry → Entries → Entries

abbrev pub is_broken : Entry → Bool
is_broken broken = true
is_broken _ = false

abbrev or_zero : Option ℕ → ℕ
or_zero none = 0
or_zero (some n) = n

-- `lower` is `str::to_lowercase`.
module _ (lower : String → String) where
  abbrev add_words : String → Option (ℕ × ℕ) → IndexResult → IndexResult
  add_words ext none acc = acc
  add_words ext (some (words, size)) acc = record acc {
    bytes = (acc.bytes + size) % 2 ^ 64;
    words_by_ext =
        Dict.insert ext ((or_zero (Dict.get acc.words_by_ext ext) + words) % 2 ^ 64)
          acc.words_by_ext;
  }

  -- the branch `path.is_file()`
  unfoldable pub index_file : File → IndexResult → IndexResult
  index_file f acc =
      add_words (lower f.extension) f.text (record acc { files = (acc.files + 1) % 2 ^ 64 })

  module _ (cancelled : ℕ → Bool) where
    -- the accumulator and the number of readings of the channel so far
    abbrev pub Walking : Type 0
    Walking = IndexResult × ℕ

    unfoldable mutual
      unfolding index_file

      -- the body of the loop for an entry; for a directory it is the call of `walk_dir`
      pub visit : Entry → Walking → Walking
      visit (dir es) (acc, n) =
          let inside = walk_entries es (acc, suc n) in if cancelled n then (acc, suc n) else inside
      visit locked_dir (acc, n) = (acc, suc n)
      visit (file f) (acc, n) = (index_file f acc, n)
      visit special s = s
      visit broken s = s

      pub walk_entries : Entries → Walking → Walking
      walk_entries nil s = s
      walk_entries (cons e es) (acc, n) =
          let skipped = walk_entries es (acc, n) in
          let visited = walk_entries es (visit e (acc, suc n)) in
          if is_broken e then skipped else if cancelled n then (acc, suc n) else visited

    -- `walk_dir` on any path: `read_dir` fails on all but a directory
    unfoldable pub walk_dir : Entry → Walking → Walking
    walk_dir (dir es) s = visit (dir es) s
    walk_dir _ (acc, n) = (acc, suc n)

    unfoldable pub walk_and_index : Entry → IndexResult
    walk_and_index e = (walk_dir e (default_result, 0)).0
