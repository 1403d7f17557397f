-- ===== src/Transitions.antt =====
-- packages/contracts: the state machines of intents, authorizations, write attempts and exchange
-- orders, whose tables are data and whose states and events are texts.
mod Examples
pub mod Types
pub mod Tables
pub mod Machine
pub mod Laws
