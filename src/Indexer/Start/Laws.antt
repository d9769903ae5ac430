-- ===== src/Indexer/Start/Laws.antt =====
-- The indexer's server: a call of its tool through the dispatch, and a look at the task after it.
use longhaul.Base.{
  String, ◌≡◌, refl, ap, ◌∙◌, ◌⊎◌, inl, inr, true, Option, some, List, [], ◌∷◌, eq_refl, Result, ok,
  err,
}
use mathlib.Core.Path.{subst}
use longhaul.Core.Tasks.{new, Task, new_handle, GetTaskParams, method_get}
use longhaul.Core.Tools.{CallToolParams, method_call}
use longhaul.Core.Tools.Outcome.{ToolCallOutcome, task}
use longhaul.Core.Jsonrpc.{Request, Response, params_as, failure}
use longhaul.Core.Errors
use longhaul.Core.Errors.{internal_error}
use longhaul.Base.Dict.{Dict}
use longhaul.Json.{string, Fields, ValueMethods}
use longhaul.Server.Store.{SqliteError, StoreError, TaskStore}
use longhaul.Server.Store.Contract.{View, IsFault, Implements}
use longhaul.Server.Registry
use longhaul.Server.Registry.{ToolEntry, ToolHandler, ToolError, display_tool_error}
use longhaul.Server.Registry.Lookup.{last_named, get-from_entries}
use longhaul.Server.Handlers.{ServerState, Wire, dispatch}
use longhaul.Server.Handlers.ToolCalls.{dispatch_of_tool, replied}
use longhaul.Server.Handlers.TaskCalls.{written}
use longhaul.Server.Handlers.Refines.{reply, task_methods-Follows}
use longhaul.Indexer.Tool.{Platform, Failure, refused, IndexerState, asked, contains, call}
use longhaul.Indexer.Tool.Laws.{Starts, call-asked}
use longhaul.Indexer.Start.{tool_def, shared, server}

module _ (p : Platform) {S : Type 0} (methods : ValueMethods) (view : S → View)
    (store : TaskStore S) (keep : Task → Task) (impl : Implements view store keep) where
  abbrev pub State : Type 0
  State = IndexerState p S

  -- the tasks that the state shows
  abbrev pub shown : State → View
  shown s = view s.state

  shared-Implements : Implements shown (shared p store) keep
  shared-Implements = record {
    get_meets = λ id s. impl.get_meets id s.state;
    insert_meets = λ t s. impl.insert_meets t s.state;
    update_meets = λ params s. impl.update_meets params s.state;
    cancel_meets = λ id s. impl.cancel_meets id s.state;
  }

  -- A handler that runs the tool's `call`; what becomes of a request whose handler panics is left
  -- open.
  pub record Runs (handler : ToolHandler State) : Type 0 where
    pub finishes :
        (args ir : Option Fields) (rs : Option String) (s s' : State) (o : ToolCallOutcome)
        → call p methods store args ir rs s ≡ (ok o, s')
        → handler args ir rs s ≡ (ok o, s')
    pub refuses :
        (args ir : Option Fields) (rs : Option String) (s s' : State) (e : ToolError)
        → call p methods store args ir rs s ≡ (err (refused e), s')
        → handler args ir rs s ≡ (err e, s')

  module _ (wire : Wire) (show : SqliteError → String)
      (iterate : Dict (ToolEntry State) → List (ToolEntry State)) (handler : ToolHandler State)
      (version : String) where
    abbrev pub srv : ServerState State
    srv = server p handler store version

    tool_found :
        Registry.get srv.registry "index_directory"
        ≡ some (record { definition = tool_def; handler = handler })
    unfolding server last_named
    tool_found =
        get-from_entries "index_directory"
          (record { definition = tool_def; handler = handler } ∷ [])

    -- the response to a look at a task, which reports the store's fault where its read is one
    abbrev pub Shows : Request → String → Task → State → Response → Type 0
    Shows req id t s response =
        (response ≡ written req (wire.task.to_value t))
        ⊎ (IsFault (store.get id s.state).0
            × (response ≡ reply wire show iterate srv shown req (store.get id s.state).0))

    get-Shows :
        (req : Request) (s : State) (q : GetTaskParams) (t : Task)
        → req.method ≡ method_get
        → params_as wire.get_task_params req ≡ ok q
        → shown s q.task_id ≡ some t
        → Shows req q.task_id t s (dispatch wire show iterate srv req s).0
    unfolding server
    get-Shows req s q t m parsed there =
        elim ((task_methods-Follows wire show iterate srv shown keep shared-Implements req s).0 q m
          parsed) [ inl (e, _) ↦ inl (rw there at e) | inr (f, e, _) ↦ inr (f, e) ]

    -- A call was answered with the handle of a new working task, the workers of that task run, and a
    -- look at it is answered with it. Or the insertion of that task is a fault of the store, which is
    -- reported, and nothing was started.
    abbrev pub Serves : Request → Platform.PathBuf p → State → Response × State → Type 0
    Serves req dir s r =
        let id : String = Platform.uuid p s.drawn in
        ((r.0 ≡ written req (wire.outcome.to_value (task (new_handle (new id)))))
          × (r.1.started ≡ (id, dir) ∷ s.started)
          × ((look : Request) (q : GetTaskParams)
              → look.method ≡ method_get
              → params_as wire.get_task_params look ≡ ok q
              → q.task_id ≡ id
              → Shows look id (keep (new id)) r.1 (dispatch wire show iterate srv look r.1).0))
        ⊎ (((e : StoreError) × ((store.insert (new id) s.state).0 ≡ err e)
              × IsFault (store.insert (new id) s.state).0
              × (r.0
                  ≡ failure req.id (
                      Errors.new internal_error
                        (display_tool_error show (Registry.ToolError.store e)))))
            × ((k : String) → shown r.1 k ≡ shown s k)
            × (r.1.started ≡ s.started))

    Starts-Serves :
        (req : Request) (dir : Platform.PathBuf p) (s s' : State) (c : CallToolParams)
        (r : Result ToolCallOutcome Failure)
        → Runs handler
        → call p methods store c.arguments c.input_responses c.request_state s ≡ (r, s')
        → Starts p methods view store keep impl dir s (r, s')
        → Serves req dir s (
            replied wire show iterate srv req
              (handler c.arguments c.input_responses c.request_state s))
    Starts-Serves req dir s s' c r runs q (inl (made, same, runs_now, _, _)) =
        let id : String = Platform.uuid p s.drawn in
        rw
          (runs.finishes c.arguments c.input_responses c.request_state s s' _
            (q ∙ ap (λ x. (x, s')) made))
          (inl (
            refl,
            runs_now,
            λ look g m parsed at_id.
                subst
                  (λ i. Shows look i (keep (new id)) s' (dispatch wire show iterate srv look s').0)
                  at_id
                  (get-Shows look s' g (keep (new id)) m parsed
                    (rw at_id (same id ∙ (rw (eq_refl id) refl)))),
          ))
    Starts-Serves req dir s s' c r runs q (inr ((e, insert, f, faulted), same, none_new)) =
        rw
          (runs.refuses c.arguments c.input_responses c.request_state s s' _
            (q ∙ ap (λ x. (x, s')) faulted))
          (inr ((e, insert, f, refl), same, none_new))

    -- The whole exchange through the server: a `tools/call` of `index_directory` that echoes the
    -- request state of a question and selects the text of an offered candidate starts the task for
    -- that candidate and is answered with its handle, and a `tasks/get` of its id then is answered
    -- with the task as it was stored. Instead of either answer, a fault of the store's own operation
    -- is reported with -32603: of the insertion, and then nothing was started, or of the read.
    pub retry-Serves :
        (req : Request) (s : State) (c : CallToolParams) (ir : Fields) (token : String)
        (cs : List (Platform.PathBuf p)) (dir : Platform.PathBuf p)
        → Runs handler
        → req.method ≡ method_call
        → params_as wire.call_tool_params req ≡ ok c
        → c.name ≡ "index_directory"
        → c.input_responses ≡ some ir
        → c.request_state ≡ some (asked p methods store cs token).request_state
        → Platform.token_from p token ≡ ok cs
        → contains p methods store cs dir ≡ true
        → Platform.path_of p (Platform.lossy p dir) ≡ dir
        → methods.map_get ir "selectedPath" ≡ some (string (Platform.lossy p dir))
        → Serves req dir s (dispatch wire show iterate srv req s)
    retry-Serves req s c ir token cs dir runs m parsed name given echoed codec offered text answer =
        let starts =
          call-asked p methods view store keep impl cs token dir c.arguments ir s codec offered text
            answer in
        rw
          (dispatch_of_tool wire show iterate srv req s c
            (record { definition = tool_def; handler = handler }) m parsed (rw name tool_found))
          (Starts-Serves req dir s _ c _ runs refl (rw (given, echoed) starts))
