-- ===== src/Runtime.antt =====
-- packages/gateway/src/demo/runtime.ts: the settings and their proposals, the opening of a position,
-- its protection, and the approval of intents.
pub mod Settings
pub mod World
pub mod Stops
pub mod Protection
pub mod Preflight
pub mod Sending
pub mod Entry
pub mod Approval
pub mod Closing
pub mod Halt
pub mod Proposals
mod Examples
