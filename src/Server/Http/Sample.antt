-- ===== src/Server/Http/Sample.antt =====
-- A concrete transport: headers as a list under their names in lower case, bodies as their values.
use longhaul.Base.{String, ◌≡◌, refl, none, some, [], ◌∷◌, if◌then◌else◌, ◌==◌, ok}
use longhaul.Base.Dict
use longhaul.Base.Dict.{Dict}
use longhaul.Json.{Value}
use longhaul.Core.Http.{header_protocol_version}
use longhaul.Server.Http.{Transport}

abbrev pub lower : String → String
lower name = if name == header_protocol_version then "mcp-protocol-version" else name

pub found_again :
    (v : String) (h : Dict String)
    → Dict.get (Dict.insert "mcp-protocol-version" v h) "mcp-protocol-version" ≡ some v
found_again v h = Dict.get-insert "mcp-protocol-version" "mcp-protocol-version" v h

pub plain :
    Dict.get {V = String}
      (("content-type", "text/plain; charset=utf-8") ∷ [])
      "mcp-protocol-version"
    ≡ none
unfolding Dict.get
plain = refl

abbrev pub transport : Transport
transport = record {
  Headers = Dict String;
  HeaderValue = String;
  Body = Value;
  Bytes = Value;
  get = λ h name. Dict.get h (lower name);
  insert = λ name v h. Dict.insert (lower name) v h;
  from_static = λ s. s;
  same_text = λ v s. v == s;
  to_str = some;
  to_bytes = λ b limit. some b;
  from_bytes = λ b. b;
  from_slice = ok;
  text_headers = ("content-type", "text/plain; charset=utf-8") ∷ [];
  debug = λ s. s;
  get-insert = found_again;
  text_headers_plain = plain;
}
