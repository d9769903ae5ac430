-- ===== src/Core/Http.antt =====
-- longhaul-core/src/http.rs: the constants of the HTTP transport.
use longhaul.Base.{String}

abbrev pub protocol_version : String
protocol_version = "2026-07-28"

abbrev pub header_protocol_version : String
header_protocol_version = "MCP-Protocol-Version"

abbrev pub header_method : String
header_method = "Mcp-Method"

abbrev pub header_name : String
header_name = "Mcp-Name"
