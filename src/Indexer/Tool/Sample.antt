-- ===== src/Indexer/Tool/Sample.antt =====
-- A platform with one directory that has two "src" sub-directories, and the answer to the question.
use longhaul.Base.{
  String, Bool, false, ◌||◌, Option, some, List, [], ◌∷◌, if◌then◌else◌, ◌==◌, Result, ok, err,
}
use longhaul.Json.{string, Fields, field, end}
use longhaul.Server.Store.Memory.{MemoryStore}
use longhaul.Indexer.Tool.{Platform, IndexerState}

abbrev pub is_src : String → Bool
is_src p = p == "root/src-a" || p == "root/src-b"

abbrev pub tokens : List String → Option String
tokens [] = some ""
tokens (p ∷ ps) = some p

-- the token holds the first candidate, and stands for both
abbrev pub read_token : String → Result (List String) String
read_token s = if s == "root/src-a" then ok ("root/src-a" ∷ "root/src-b" ∷ []) else err "no token"

abbrev pub platform : Platform
platform = record {
  PathBuf = String;
  path_of = λ s. s;
  lossy = λ s. s;
  same_path = λ p q. p == q;
  exists = λ p. p == "root" || is_src p;
  is_dir = λ p. p == "root" || is_src p;
  entries = λ p. if p == "root" then "root/doc" ∷ "root/src-a" ∷ "root/src-b" ∷ [] else [];
  names_src = is_src;
  token_text = tokens;
  token_from = read_token;
  debug = λ s. s;
  uuid = λ n. "id";
}

abbrev pub idle : IndexerState platform MemoryStore
idle = record {
  state = record { tasks = []; poisoned = false };
  cancel_txs = [];
  drawn = 0;
  started = [];
}

abbrev pub both : List String
both = "root/src-a" ∷ "root/src-b" ∷ []

abbrev pub answers : Fields
answers = field "selectedPath" (string "root/src-b") end
