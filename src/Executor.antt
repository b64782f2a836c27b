-- ===== src/Executor.antt =====
-- runtime/rx-executor/src: the executor of a process, beside the behaviour tree that drives it.
pub mod Frame
pub mod Pending
