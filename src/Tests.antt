-- ===== src/Tests.antt =====
-- Concrete runs of the theorems about `src/service.rs`, over a concrete engine.
mod Configs
pub mod Toy
pub mod Fixtures
mod Calls
mod Lenient
mod Early
mod Steady
mod Pieces
mod Layers
mod Bodies
mod Apps
mod Sequences
