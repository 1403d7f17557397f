-- ===== src/Transitions/Types.antt =====
-- The shape of the tables.
use trade_gate.Prelude.{String, List}

pub record Transition : Type 0 where
  pub from : String
  pub to : String
  pub event : String

pub record Table : Type 0 where
  pub initial : String
  pub states : List String
  pub terminal : List String
  pub transitions : List Transition

pub data MachineName : Type 0 where
  attempt_result authorization_status exchange_order_status intent_status : MachineName
