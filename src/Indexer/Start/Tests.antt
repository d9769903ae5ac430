-- ===== src/Indexer/Start/Tests.antt =====
-- The indexer over a memory store: the start of `main`, and a retry through the server.
use longhaul.Base.{String, ◌≡◌, refl, ◌⊎◌, inr, none, some, Result, ok, err}
use longhaul.Base.Dict
use longhaul.Json.Sample.{sample_methods}
use longhaul.Core.Tools.{CallToolParams, method_call}
use longhaul.Core.Tools.Outcome.{ToolCallOutcome}
use longhaul.Core.Jsonrpc.{params_as, Request}
use longhaul.Indexer.Start.{Cli, server, main, either_store}
use longhaul.Server.Store.{sqlite, query_returned_no_rows}
use longhaul.Json.{object, end}
use longhaul.Server.Store.Memory
use longhaul.Server.Store.Memory.{MemoryStore, memory_store}
use longhaul.Server.Store.Refines.{memory_view, memory_store-Implements}
use longhaul.Server.Registry.{ToolError, ToolHandler, tool_failed}
use longhaul.Server.Handlers.{Wire, dispatch}
use longhaul.Server.Handlers.Sample.{wire, show, request}
use longhaul.Indexer.Tool.{Failure, refused, panicked, IndexerState, call}
use longhaul.Indexer.Tool.Sample.{platform, idle, both, answers}
use longhaul.Indexer.Start
use longhaul.Indexer.Start.Laws.{Runs, Serves, srv, retry-Serves}

abbrev caught : Result ToolCallOutcome Failure → Result ToolCallOutcome ToolError
caught (ok o) = ok o
caught (err (refused e)) = err e
caught (err (panicked m)) = err (tool_failed m)

-- a runtime that reports a panic as a failure of the tool
abbrev handler : ToolHandler (IndexerState platform MemoryStore)
handler args ir rs s =
    let (r, s') = call platform sample_methods memory_store args ir rs s in (caught r, s')

runs :
    Runs platform sample_methods memory_view memory_store (λ t. t) memory_store-Implements handler
runs = record {
  finishes = λ args ir rs s s' o q. rw q refl;
  refuses = λ args ir rs s s' e q. rw q refl;
}

abbrev retry : CallToolParams
retry = record {
  name = "index_directory";
  arguments = none;
  input_responses = some answers;
  request_state = some "root/src-a";
  meta = none;
}

abbrev calls : Wire
calls = record wire {
  call_tool_params = record { to_value = λ a. err "unsupported"; from_value = λ v. ok retry };
}

abbrev req : Request
req = request method_call (object end)

retry-Serves_example :
    Serves platform sample_methods memory_view memory_store
      (λ t. t)
      memory_store-Implements
      calls
      show
      Dict.values
      handler
      "0.1.0"
      req
      "root/src-b"
      idle
      (dispatch calls show Dict.values
        (srv platform sample_methods memory_view memory_store
          (λ t. t)
          memory_store-Implements
          calls
          show
          Dict.values
          handler
          "0.1.0")
        req
        idle)
unfolding params_as
retry-Serves_example =
    retry-Serves platform sample_methods memory_view memory_store (λ t. t) memory_store-Implements
      calls show Dict.values handler "0.1.0" req idle retry answers "root/src-a" both "root/src-b"
      runs refl refl refl refl refl refl refl refl refl

abbrev idle_handler : ToolHandler (IndexerState platform (MemoryStore ⊎ MemoryStore))
idle_handler args ir rs s = (err (tool_failed "busy"), s)

abbrev start :
    (dir : String)
    → Result (Unit {0}) String
    → Result
        (Start.Served platform memory_store
          (λ path. err (sqlite query_returned_no_rows))
          (λ address. ok tt)
          idle_handler
          "0.1.0")
        String
start dir bound =
    main platform memory_store (λ path. err (sqlite query_returned_no_rows)) (λ address. bound)
      idle_handler "0.1.0" (record { dir = dir; bind = "0.0.0.0:3000"; db = "indexer.db" })

no_directory : start "nowhere" (ok tt) ≡ err "error: directory does not exist: nowhere"
unfolding main
no_directory = refl

not_bound : start "root" (err "in use") ≡ err "error: cannot bind to 0.0.0.0:3000: in use"
unfolding main
not_bound = refl

-- the database cannot be opened
in_memory :
    start "root" (ok tt)
    ≡ ok (
      server platform idle_handler (either_store memory_store memory_store) "0.1.0",
      Start.idle platform (inr Memory.new),
    )
unfolding main
in_memory = refl
