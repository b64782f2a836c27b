-- ===== src/Gate.antt =====
-- runtime/rx-host/src/gate: the command gate of a device host, the only way to native dispatch.
pub mod Model
pub mod Store
pub mod Core
pub mod Validation
pub mod Grants
pub mod Scopes
pub mod Dispatch
pub mod Receipts
pub mod Work
pub mod Current
pub mod Marks
pub mod Once
pub mod Start
pub mod Claims
mod Tests
