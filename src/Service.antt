-- ===== src/Service.antt =====
-- The middleware service, `src/service.rs`.
pub mod Buffer
pub mod Query
pub mod Respond
pub mod Scan
pub mod RouteAccess
pub mod Gate
pub mod Checks
pub mod RouteGates
pub mod EnginePass
pub mod Call
pub mod Handle
