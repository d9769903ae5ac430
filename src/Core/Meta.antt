-- ===== src/Core/Meta.antt =====
-- longhaul-core/src/meta.rs: the `_meta` object.
mod Laws
use longhaul.Base.{String, Bool, true, false, ◌&&◌, Option, none, some}
use longhaul.Json.{Fields, end, field}

abbrev pub key_client_info : String
key_client_info = "io.modelcontextprotocol/clientInfo"

abbrev pub key_traceparent : String
key_traceparent = "traceparent"

abbrev pub key_tracestate : String
key_tracestate = "tracestate"

abbrev pub key_baggage : String
key_baggage = "baggage"

pub record ClientInfo : Type 0 where
  pub name : String
  pub version : String

pub new_client_info : String → String → ClientInfo
new_client_info name version = record { name = name; version = version }

pub record Meta : Type 0 where
  pub client_info : Option ClientInfo
  pub traceparent : Option String
  pub tracestate : Option String
  pub baggage : Option String
  pub extra : Fields

-- `Meta::default()`
abbrev pub default_meta : Meta
default_meta = record {
  client_info = none;
  traceparent = none;
  tracestate = none;
  baggage = none;
  extra = end;
}

pub with_client_info : String → String → Meta
unfolding new_client_info
with_client_info name version = record default_meta {
  client_info = some (new_client_info name version);
}

abbrev is_none : {A : Type 0} → Option A → Bool
is_none none = true
is_none (some a) = false

abbrev no_fields : Fields → Bool
no_fields end = true
no_fields (field k v fs) = false

pub is_empty : Meta → Bool
is_empty m =
    is_none m.client_info
    && is_none m.traceparent
    && is_none m.tracestate
    && is_none m.baggage
    && no_fields m.extra
