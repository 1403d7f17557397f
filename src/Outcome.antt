-- ===== src/Outcome.antt =====
-- packages/gateway/src/demo/outcome.ts: what happened after a judgment, on bars that it could not
-- see. The notes for people are left out. `stepTrade` changes its trade in place: here it returns
-- the new one.
mod Examples
pub mod Trade
pub mod Simulation
pub mod Missed
