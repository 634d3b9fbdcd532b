-- ===== src/Controller.antt =====
-- crates/hap-controller/src: the parts of the controller that compute on their own.
pub mod Types
pub mod SetupPayload
pub mod Reconnect
pub mod Supervisor
pub mod Handle
pub mod Discovery
mod Runs
