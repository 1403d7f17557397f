-- ===== src/Graph.antt =====
-- packages/gateway/src/demo/graph.ts: the judgment graph. The texts for people (`description`, the
-- version, the Mermaid and Markdown output) are left out.
mod Examples
pub mod Types
pub mod Data
pub mod Lookup
pub mod Validate
pub mod Validity
pub mod Safety
