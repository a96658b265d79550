-- ===== src/Gui/Server.antt =====
-- protocols/gui-v1/src/server.rs: the headless reference server.
pub mod State
pub mod Seat
pub mod Step
pub mod Dispatch
pub mod Pipeline
pub mod Inject
pub mod Atomic
pub mod Consistent
pub mod Bookkeeping
pub mod Guards
pub mod Follows
pub mod Progress
pub mod Served
pub mod Seated
pub mod Stale
pub mod Calls
pub mod Coherent
pub mod Sound
pub mod Reachable
pub mod Serials
mod Examples
