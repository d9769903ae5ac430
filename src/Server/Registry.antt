-- ===== src/Server/Registry.antt =====
-- longhaul-server/src/registry.rs: tool errors, tool entries and the registry. `W` is the state that
-- a tool may change when it is called, the task store among it.
pub mod Lookup
pub mod Sorting
pub mod Listing
pub mod Sample
pub mod Suite
pub mod Toolset
mod Tests
use Prim.Native.Nat.{Ordering}
use longhaul.Base.{◌<◌, String, true, Option, none, some, List, [], ◌∷◌, map, ◌<>◌}
use longhaul.Base.Dict
use longhaul.Base.Dict.{Dict}
use longhaul.Base.Exec.{Exec}
use longhaul.Base.Order.{str_cmp}
use longhaul.Json.{Fields}
use longhaul.Core.Tasks.{Task, new_handle}
use longhaul.Core.Tools.{Tool, ListToolsResult, text_block}
use longhaul.Core.Tools.Outcome.{ToolCallOutcome, content, task}
use longhaul.Server.Store.{SqliteError, StoreError, display_store_error}

pub data ToolError : Type 0 where
  invalid_params : String → ToolError
  tool_failed : String → ToolError
  store : StoreError → ToolError

-- the `#[error(…)]` texts
unfoldable pub display_tool_error : (SqliteError → String) → ToolError → String
display_tool_error show (invalid_params m) = "invalid params: " <> m
display_tool_error show (tool_failed m) = "tool error: " <> m
display_tool_error show (store e) = display_store_error show e

-- `ToolError::invalid`
abbrev pub invalid : String → ToolError
invalid msg = invalid_params msg

-- The trait `ToolHandler`: its method `call`.
abbrev pub ToolHandler : Type 0 → Type 0
ToolHandler W = Option Fields → Option Fields → Option String → Exec W ToolError ToolCallOutcome

pub record ToolEntry (W : Type 0) : Type 0 where
  pub definition : Tool
  pub handler : ToolHandler W

abbrev pub name_of : {W : Type 0} → ToolEntry W → String
name_of e = e.definition.name

pub record Registry (W : Type 0) : Type 0 where
  pub tools : Dict (ToolEntry W)

module _ {W : Type 0} where
  -- the loop of `from_entries`
  insert_all : List (ToolEntry W) → Dict (ToolEntry W) → Dict (ToolEntry W)
  insert_all [] m = m
  insert_all (entry ∷ entries) m = insert_all entries (Dict.insert (name_of entry) entry m)

  pub from_entries : List (ToolEntry W) → Registry W
  unfolding insert_all
  from_entries entries = record { tools = insert_all entries [] }

  unfoldable pub get : Registry W → String → Option (ToolEntry W)
  get r name = Dict.get r.tools name

  -- `sort_by` is a stable sort; an equal name stays behind the ones that stood before it.
  insert_sorted : ToolEntry W → List (ToolEntry W) → List (ToolEntry W)
  insert_sorted x [] = x ∷ []
  insert_sorted x (y ∷ ys) =
      let rest = insert_sorted x ys in
      elim (str_cmp (name_of x) (name_of y)) [
        | Ordering.lt ↦ x ∷ y ∷ ys
        | Ordering.eq ↦ x ∷ y ∷ ys
        | Ordering.gt ↦ y ∷ rest
      ]

  pub sort_by_name : List (ToolEntry W) → List (ToolEntry W)
  unfolding insert_sorted
  sort_by_name [] = []
  sort_by_name (x ∷ xs) = insert_sorted x (sort_by_name xs)

  -- `iterate` is the order in which `HashMap::values` visits the entries, which is not specified.
  module _ (iterate : Dict (ToolEntry W) → List (ToolEntry W)) where
    unfoldable pub all_sorted : Registry W → List (ToolEntry W)
    unfolding sort_by_name
    all_sorted r = sort_by_name (iterate r.tools)

    pub list_result : Registry W → ListToolsResult
    list_result r = record {
      tools = map (λ (e : ToolEntry W). e.definition) (all_sorted r);
      next_cursor = none;
      ttl_ms = some 60_000;
      cache_scope = some "session";
      meta = none;
    }

pub ok_text : String → ToolCallOutcome
ok_text s = content (record {
  content = text_block s ∷ [];
  structured_content = none;
  is_error = none;
  meta = none;
})

pub err_content : String → ToolCallOutcome
err_content message = content (record {
  content = text_block message ∷ [];
  structured_content = none;
  is_error = some true;
  meta = none;
})

pub task_handle : Task → ToolCallOutcome
task_handle t = task (new_handle t)
