-- ===== src/Indexer/Start.antt =====
-- examples/indexer/src/main.rs: `main`, up to the server state that it serves. The opening of the
-- database, the binding of the socket and the runtime around the tool's handler are parameters; the
-- log is left out.
pub mod Laws
mod Tests
use longhaul.Base.{
  ◌-◌, ◌<◌, String, ◌⊎◌, inl, inr, false, not, none, some, [], ◌∷◌, if◌then◌else◌, ◌<>◌, Result, ok,
  err, map_err, and_then,
}
use longhaul.Base.Exec.{Exec}
use longhaul.Json.{Value, bool, string, array, object, nil, cons, field, end, ValueMethods}
use longhaul.Core.Http.{protocol_version}
use longhaul.Core.Discover
use longhaul.Core.Discover.{DiscoverResult}
use longhaul.Core.Tools.{Tool}
use longhaul.Server.Store.{StoreError, TaskStore}
use longhaul.Server.Store.Memory.{MemoryStore, memory_store}
use longhaul.Server.Store.Memory
use longhaul.Server.Registry.{Registry, ToolHandler, from_entries}
use longhaul.Server.Handlers.{ServerState}
use longhaul.Indexer.Tool.{Platform, IndexerState}

abbrev pub tool_def : Tool
tool_def = record {
  name = "index_directory";
  title = some "Index Directory";
  description = some (
      "Walk a directory tree, count words per file extension, and report statistics. "
      <> "Returns a task handle immediately; poll tasks/get for progress. "
      <> "Supports cancellation via tasks/cancel.");
  input_schema = object (
      field "type" (string "object") (
        field "required" (array (cons (string "path") nil)) (
          field "properties"
            (object (
              field "path"
                (object (
                  field "type" (string "string") (
                    field "description"
                      (string "Absolute or relative path to the directory to index.") end)))
                end))
            (field "additionalProperties" (bool false) end))));
  output_schema = none;
  meta = none;
  extra = end;
}

abbrev pub discover_result : String → DiscoverResult
discover_result version = record {
  protocol_version = protocol_version;
  server_info = Discover.new "longhaul-indexer" version;
  capabilities = record {
    tools = some (record { list_changed = none });
    tasks = some (record { extra = end });
    extra = end;
  };
  instructions = some (
      "Use index_directory to index a directory tree. The tool returns immediately "
      <> "with a task handle; poll tasks/get to check progress. If the path is "
      <> "ambiguous (multiple src-like sub-directories), the tool will pause with "
      <> "inputRequired and ask you to choose.");
  meta = none;
}

-- the store that was opened, or a new one in memory
abbrev pub chosen : {A : Type 0} → Result A StoreError → A ⊎ MemoryStore
chosen (ok s) = inl s
chosen (err e) = inr Memory.new

abbrev on_either :
    {A B X : Type 0} → Exec A StoreError X → Exec B StoreError X → Exec (A ⊎ B) StoreError X
on_either f g (inl a) = let (r, a') = f a in (r, inl a')
on_either f g (inr b) = let (r, b') = g b in (r, inr b')

-- `Arc<dyn TaskStore>`: a method runs on the store that was chosen
abbrev pub either_store : {A B : Type 0} → TaskStore A → TaskStore B → TaskStore (A ⊎ B)
either_store a b = record {
  get = λ id. on_either (a.get id) (b.get id);
  insert = λ t. on_either (a.insert t) (b.insert t);
  update = λ params. on_either (a.update params) (b.update params);
  cancel = λ id. on_either (a.cancel id) (b.cancel id);
}

module _ (p : Platform) where
  -- the arguments of the command line
  pub record Cli : Type 0 where
    pub dir : Platform.PathBuf p
    pub bind : String
    pub db : String

  module _ {S : Type 0} where
    abbrev on_state : {X : Type 0} → Exec S StoreError X → Exec (IndexerState p S) StoreError X
    on_state m s = let (r, state) = m s.state in (r, record s { state = state })

    -- the store of the indexer's state, which the server holds too
    abbrev pub shared : TaskStore S → TaskStore (IndexerState p S)
    shared store = record {
      get = λ id. on_state (store.get id);
      insert = λ t. on_state (store.insert t);
      update = λ params. on_state (store.update params);
      cancel = λ id. on_state (store.cancel id);
    }

    -- `IndexerState`, with no task
    abbrev pub idle : S → IndexerState p S
    idle s = record { state = s; cancel_txs = []; drawn = 0; started = [] }

    -- the `ServerState`; `handler` is the tool
    unfoldable pub server :
        ToolHandler (IndexerState p S) → TaskStore S → String → ServerState (IndexerState p S)
    server handler store version = record {
      discover_result = discover_result version;
      registry = from_entries (record { definition = tool_def; handler = handler } ∷ []);
      store = shared store;
    }

  module _ {A : Type 0} (sqlite : TaskStore A) (open_sqlite : String → Result A StoreError)
      (bind : String → Result (Unit {0}) String)
      (handler : ToolHandler (IndexerState p (A ⊎ MemoryStore))) (version : String) where
    abbrev pub Served : Type 0
    Served = ServerState (IndexerState p (A ⊎ MemoryStore)) × IndexerState p (A ⊎ MemoryStore)

    -- What is served and in which state; an `err` is the message before an exit with 1.
    unfoldable pub main : Cli → Result Served String
    unfolding server
    main cli =
        if not (Platform.exists p cli.dir)
        then err ("error: directory does not exist: " <> Platform.lossy p cli.dir)
        else and_then
            (map_err (λ e. "error: cannot bind to " <> cli.bind <> ": " <> e) (bind cli.bind))
            (λ _. ok (
              server handler (either_store sqlite memory_store) version,
              idle (chosen (open_sqlite cli.db)),
            ))
