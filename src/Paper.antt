-- ===== src/Paper.antt =====
-- packages/gateway/src/demo/execution.ts: `PaperBackend`, the exchange that is simulated in the
-- process. Its fields are the record `Paper`, passed from call to call. Objects in `orders` are told
-- apart by identity: each carries the number of its creation. `save` writes the snapshot to the
-- store after a call and changes nothing that is read again before a restart.
pub mod Types
pub mod Fills
pub mod Orders
pub mod Tick
pub mod Account
pub mod Snapshot
pub mod Steps
pub mod Fate
pub mod Valid
pub mod Kept
pub mod Invariant
pub mod FillFate
pub mod TickFate
pub mod Lifecycle
pub mod Restart
pub mod Filled
pub mod Close
mod Examples
