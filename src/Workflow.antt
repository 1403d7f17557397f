-- ===== src/Workflow.antt =====
-- packages/gateway/src/demo/workflow.ts: the settings that the user edits, and `applyWorkflowPatch`,
-- which reads a patch key by key in the order of the source. A patch is a JSON object. An error is
-- the key that it is about: its text is for people.
pub mod Values
pub mod Texts
pub mod Types
pub mod Fields
pub mod Readers
pub mod Patch
pub mod Kept
pub mod Others
pub mod Load
pub mod Lists
pub mod Bounds
mod Examples
