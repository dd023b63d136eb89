-- ===== src/Engine.antt =====
-- resolvd/src/engine.rs: the resolution engine.
pub mod State
pub mod Routing
pub mod Local
pub mod Replies
pub mod Settle
pub mod Attempts
pub mod Inputs
pub mod Questions
pub mod Views
pub mod Invariant
pub mod Runs
