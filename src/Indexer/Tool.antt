-- ===== src/Indexer/Tool.antt =====
-- examples/indexer/src/main.rs: the tool `index_directory`, its initial call, its retry and the start
-- of a task. Paths, the file system and the codec of the token are the parameter `Platform`.
pub mod Laws
pub mod Sample
mod Tests
use longhaul.Base.{
  ℕ, ◌+◌, ◌-◌, ◌<◌, String, Bool, false, not, ◌&&◌, ◌||◌, Option, none, some, List, [], ◌∷◌,
  if◌then◌else◌, ◌<>◌, Result, ok, ok_or, map_err,
}
use longhaul.Base.Dict
use longhaul.Base.Dict.{Dict}
use longhaul.Base.Exec.{Exec, pure, raise, lift, ◌>>=◌, ◌>>◌}
use longhaul.Json.{Value, string, array, object, Items, nil, cons, Fields, end, field, ValueMethods}
use longhaul.Core.Tag.{tag}
use longhaul.Core.Tasks.{Task, new, new_handle, InputRequiredResult}
use longhaul.Core.Tools.Outcome.{ToolCallOutcome, task, input_required, option_and_then}
use longhaul.Server.Store.{StoreError, TaskStore}
use longhaul.Server.Registry.{ToolError, invalid_params, tool_failed, store}

pub record Platform : Type 1 where
  pub PathBuf : Type 0
  -- `PathBuf::from` and `to_string_lossy`
  pub path_of : String → PathBuf
  pub lossy : PathBuf → String
  pub same_path : PathBuf → PathBuf → Bool
  pub exists : PathBuf → Bool
  pub is_dir : PathBuf → Bool
  -- the paths of the entries that `read_dir` gives, and none where it fails
  pub entries : PathBuf → List PathBuf
  -- `file_name().is_some_and(|n| n.to_string_lossy().contains("src"))`
  pub names_src : PathBuf → Bool
  -- `serde_json::to_string` and `from_str` of a `RequestStateToken`; a path that is no UTF-8 text has
  -- no JSON, and then `unwrap` panics
  pub token_text : List PathBuf → Option String
  pub token_from : String → Result (List PathBuf) String
  -- the `{:?}` of a text
  pub debug : String → String
  -- the text of the `n`-th `Uuid::new_v4`
  pub uuid : ℕ → String

-- How a call of the tool ends without an outcome.
pub data Failure : Type 0 where
  refused : ToolError → Failure
  panicked : String → Failure

module _ (p : Platform) where
  open p use {
    PathBuf, path_of, lossy, same_path, exists, is_dir, entries, names_src, token_text, token_from,
    debug, uuid,
  }

  -- `IndexerState`, the ids drawn so far, and the background tasks that were spawned, the last first.
  pub record IndexerState (S : Type 0) : Type 0 where
    pub state : S
    pub cancel_txs : Dict (Unit {0})
    pub drawn : ℕ
    pub started : List (String × PathBuf)

  module _ {S : Type 0} (methods : ValueMethods) (store : TaskStore S) where
    abbrev pub Call : Type 0 → Type 0
    Call A = Exec (IndexerState S) Failure A

    abbrev pub refuse : {A : Type 0} → String → Call A
    refuse m = raise (refused (invalid_params m))

    abbrev draw : Call String
    draw s = (ok (uuid s.drawn), record s { drawn = s.drawn + 1 })

    -- `self.state.store.insert(…)?`
    abbrev insert_task : Task → Call (Unit {0})
    insert_task t s =
        let (r, state) = store.insert t s.state in
        (map_err (λ e. refused (ToolError.store e)) r, record s { state = state })

    -- the sender is kept, and the monitor and the worker are spawned
    abbrev start_workers : String → PathBuf → Call (Unit {0})
    start_workers id dir s = (
      ok tt,
      record s { cancel_txs = Dict.insert id tt s.cancel_txs; started = (id, dir) ∷ s.started },
    )

    unfoldable pub spawn_index_task : PathBuf → Call ToolCallOutcome
    unfolding new new_handle
    spawn_index_task dir = do
      task_id ← draw
      insert_task (new task_id)
      start_workers task_id dir
      pure (task (new_handle (new task_id)))

    abbrev pub contains : List PathBuf → PathBuf → Bool
    contains [] q = false
    contains (c ∷ cs) q = same_path c q || contains cs q

    unfoldable pub handle_retry : Fields → String → Call ToolCallOutcome
    unfolding spawn_index_task
    handle_retry input_responses request_state = do
      candidates ← lift (
          map_err (λ e. refused (invalid_params "Invalid requestState token"))
            (token_from request_state))
      chosen ← lift (
          ok_or (option_and_then (methods.map_get input_responses "selectedPath") methods.as_str)
            (refused (invalid_params "Missing inputResponse: selectedPath")))
      if not (contains candidates (path_of chosen))
          then refuse ("selectedPath " <> debug chosen <> " is not one of the offered candidates")
          else spawn_index_task (path_of chosen)

    -- the sub-directories with "src" in their names
    unfoldable pub candidates_of : List PathBuf → List PathBuf
    candidates_of [] = []
    candidates_of (q ∷ qs) =
        let rest = candidates_of qs in if is_dir q && names_src q then q ∷ rest else rest

    abbrev texts : List PathBuf → Items
    texts [] = nil
    texts (q ∷ qs) = cons (string (lossy q)) (texts qs)

    -- `choice_schema`
    abbrev pub choice_schema : List PathBuf → Value
    choice_schema candidates = object (
        field "type" (string "string") (
          field "description" (string "Full path of the sub-directory to index")
            (field "enum" (array (texts candidates)) end)))

    abbrev pub asked : List PathBuf → String → InputRequiredResult
    asked candidates token = record {
      result_type = tag;
      input_requests = methods.map_insert "selectedPath" (choice_schema candidates) end;
      request_state = token;
      meta = none;
    }

    unfoldable pub ask : List PathBuf → Call ToolCallOutcome
    ask candidates = do
      token ←
          lift (ok_or (token_text candidates) (panicked "path contains invalid UTF-8 characters"))
      pure (input_required (asked candidates token))

    -- from the candidates on
    unfoldable pub choose : PathBuf → List PathBuf → Call ToolCallOutcome
    unfolding ask spawn_index_task
    choose root [] = spawn_index_task root
    choose root (c ∷ []) = spawn_index_task c
    choose root (c ∷ d ∷ cs) = ask (c ∷ d ∷ cs)

    -- the initial call, from `let root` on
    unfoldable pub first_call : String → Call ToolCallOutcome
    unfolding choose candidates_of spawn_index_task
    first_call path_str =
        let root = path_of path_str in
        if not (exists root)
        then refuse ("Path does not exist: " <> path_str)
        else if is_dir root
        then choose root (candidates_of (entries root))
        else spawn_index_task root

    abbrev path_argument : Option Fields → Option Value
    path_argument none = none
    path_argument (some a) = methods.map_get a "path"

    unfoldable pub initial_call : Option Fields → Call ToolCallOutcome
    unfolding first_call
    initial_call arguments = do
      path_str ← lift (
          ok_or (option_and_then (path_argument arguments) methods.as_str)
            (refused (invalid_params "Missing required argument: path")))
      first_call path_str

    unfoldable pub call : Option Fields → Option Fields → Option String → Call ToolCallOutcome
    unfolding handle_retry initial_call
    call arguments (some ir) (some rs) = handle_retry ir rs
    call arguments _ _ = initial_call arguments
