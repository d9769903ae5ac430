-- ===== src/Core/Discover.antt =====
-- longhaul-core/src/discover.rs: the shapes of `server/discover`.
use longhaul.Base.{String, Bool, Option, none}
use longhaul.Json.{Fields}
use longhaul.Core.Meta.{Meta}

abbrev pub method_discover : String
method_discover = "server/discover"

pub record DiscoverParams : Type 0 where
  pub meta : Option Meta

pub record Implementation : Type 0 where
  pub name : String
  pub version : String
  pub title : Option String

-- `Implementation::new`
unfoldable pub new : String → String → Implementation
new name version = record { name = name; version = version; title = none }

pub record ToolsCapability : Type 0 where
  pub list_changed : Option Bool

pub record TasksCapability : Type 0 where
  pub extra : Fields

pub record ServerCapabilities : Type 0 where
  pub tools : Option ToolsCapability
  pub tasks : Option TasksCapability
  pub extra : Fields

pub record DiscoverResult : Type 0 where
  pub protocol_version : String
  pub server_info : Implementation
  pub capabilities : ServerCapabilities
  pub instructions : Option String
  pub meta : Option Meta
