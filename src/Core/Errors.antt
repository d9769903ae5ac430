-- ===== src/Core/Errors.antt =====
-- longhaul-core/src/error.rs: the error codes and the JSON-RPC error object.
mod Laws
mod Suite
use longhaul.Base.{String, Bool, ◌&&◌, ◌<>◌, if◌then◌else◌, Option, none, some}
use longhaul.Base.Int.{ℤ, negsuc, leb_ℤ, eq_ℤ}
use longhaul.Json.{Value}

-- -32700
abbrev pub parse_error : ℤ
parse_error = negsuc 32699

-- -32600
abbrev pub invalid_request : ℤ
invalid_request = negsuc 32599

-- -32601
abbrev pub method_not_found : ℤ
method_not_found = negsuc 32600

-- -32602
abbrev pub invalid_params : ℤ
invalid_params = negsuc 32601

-- -32603
abbrev pub internal_error : ℤ
internal_error = negsuc 32602

-- -32099
abbrev pub server_error_min : ℤ
server_error_min = negsuc 32098

-- -32000
abbrev pub server_error_max : ℤ
server_error_max = negsuc 31999

-- -32002
abbrev pub pre_rc_invalid_params : ℤ
pre_rc_invalid_params = negsuc 32001

pub is_server_error : ℤ → Bool
is_server_error code = leb_ℤ server_error_min code && leb_ℤ code server_error_max

pub normalize_code : ℤ → ℤ
normalize_code code = if eq_ℤ code pre_rc_invalid_params then invalid_params else code

pub record ErrorObject : Type 0 where
  pub code : ℤ
  pub message : String
  pub error_data : Option Value

unfoldable pub new : ℤ → String → ErrorObject
new code message = record { code = code; message = message; error_data = none }

-- `Display for ErrorObject`; `show` prints an integer in decimal
abbrev pub display_error : (ℤ → String) → ErrorObject → String
display_error show e = "JSON-RPC error " <> show e.code <> ": " <> e.message

pub with_data : ErrorObject → Value → ErrorObject
with_data e v = record e { error_data = some v }

pub invalid_params_error : String → ErrorObject
unfolding new
invalid_params_error message = new invalid_params message

unfoldable pub method_not_found_error : String → ErrorObject
unfolding new
method_not_found_error method = new method_not_found ("Method not found: " <> method)
