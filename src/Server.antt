-- ===== src/Server.antt =====
-- The crate longhaul-server: task stores, tool registry, handlers, middleware and router.
pub mod Store
pub mod Registry
pub mod Handlers
pub mod Http
pub mod Router
pub mod Histories
pub mod Instances
