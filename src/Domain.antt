-- ===== src/Domain.antt =====
-- sdk/crates/rx-domain: the semantics that depends on no transport, storage or device.
pub mod Types
pub mod Operation
pub mod Condition
pub mod Epoch
pub mod Budget
pub mod Intent
