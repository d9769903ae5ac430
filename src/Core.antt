-- ===== src/Core.antt =====
-- The crate longhaul-core: the types of the protocol and the code on them.
pub mod Tag
pub mod Http
pub mod Meta
pub mod Errors
pub mod Tasks
pub mod Tools
pub mod Discover
pub mod Jsonrpc
