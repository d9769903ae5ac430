-- ===== src/Core/Tools.antt =====
-- longhaul-core/src/tools.rs: tool definitions, the bound on schemas and the results of a call.
pub mod Schema
pub mod Outcome
use longhaul.Base.{ℕ, String, Bool, Option, none, some, List, Result, and_then}
use longhaul.Json.{Value, Fields}
use longhaul.Core.Meta.{Meta}
use longhaul.Core.Tag.{StringTag, tag}

abbrev pub method_list : String
method_list = "tools/list"

abbrev pub method_call : String
method_call = "tools/call"

abbrev pub default_max_schema_depth : ℕ
default_max_schema_depth = 64

pub record Tool : Type 0 where
  pub name : String
  pub title : Option String
  pub description : Option String
  pub input_schema : Value
  pub output_schema : Option Value
  pub meta : Option Meta
  pub extra : Fields

pub record ListToolsParams : Type 0 where
  pub cursor : Option String
  pub meta : Option Meta

pub record ListToolsResult : Type 0 where
  pub tools : List Tool
  pub next_cursor : Option String
  pub ttl_ms : Option ℕ
  pub cache_scope : Option String
  pub meta : Option Meta

pub record CallToolParams : Type 0 where
  pub name : String
  pub arguments : Option Fields
  pub input_responses : Option Fields
  pub request_state : Option String
  pub meta : Option Meta

-- `CallToolParams::new`
unfoldable pub new_call : String → CallToolParams
new_call name = record {
  name = name;
  arguments = none;
  input_responses = none;
  request_state = none;
  meta = none;
}

unfoldable pub retry : String → Fields → String → CallToolParams
retry name input_responses request_state = record {
  name = name;
  arguments = none;
  input_responses = some input_responses;
  request_state = some request_state;
  meta = none;
}

abbrev pub TextTag : Type 0
TextTag = StringTag "text"

pub record TextContent : Type 0 where
  pub kind : TextTag
  pub content_text : String
  pub meta : Option Meta

pub data ContentBlock : Type 0 where
  text : TextContent → ContentBlock
  other : Value → ContentBlock

-- `ContentBlock::text`
unfoldable pub text_block : String → ContentBlock
text_block s = text (record { kind = tag; content_text = s; meta = none })

pub as_text : ContentBlock → Option String
as_text (text t) = some t.content_text
as_text (other v) = none

pub record CallToolResult : Type 0 where
  pub content : List ContentBlock
  pub structured_content : Option Value
  pub is_error : Option Bool
  pub meta : Option Meta
