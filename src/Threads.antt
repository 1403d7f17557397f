-- ===== src/Threads.antt =====
-- packages/gateway/src/demo/threads.ts: strategy threads, whose status is derived from exchange
-- facts. The texts of events and reasons that only people read are left out, but for
-- `close_reason`, which the thread keeps.
mod Examples
pub mod Types
pub mod Facts
pub mod Reconcile
pub mod Review
pub mod Opening
