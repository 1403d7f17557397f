-- ===== src/Gates.antt =====
-- `evaluateGates` of packages/gateway/src/demo/gates.ts: the checks of the code on a judgment. The
-- reasons, texts for people, are left out. Percentages and prices are numbers of the parameter.
mod Examples
pub mod Types
pub mod Evaluate
pub mod Guards
pub mod Laws
pub mod Sizing
