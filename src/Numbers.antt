-- ===== src/Numbers.antt =====
-- The numbers of the language, for prices and quantities: the source keeps these as decimal texts
-- and computes with 64-bit floats. The model takes the floats and the operations that the source
-- uses as one argument, with no law: `NaN` is among the values. A theorem that needs laws names them.
pub mod Whole
use trade_gate.Prelude.{ℕ, Bool, Option, String}

pub record Numbers : Type 1 where
  pub Number : Type 0
  -- `Number(text)`, also for a literal of the source.
  pub of_text : String → Number
  pub lt : Number → Number → Bool
  pub le : Number → Number → Bool
  pub add : Number → Number → Number
  pub sub : Number → Number → Number
  pub mul : Number → Number → Number
  pub div : Number → Number → Number
  pub abs : Number → Number
  -- `Math.min` and `Math.max`.
  pub least : Number → Number → Number
  pub greatest : Number → Number → Number
  -- `Math.round`, `Math.floor` and `Number.isFinite`.
  pub round : Number → Number
  pub floor : Number → Number
  pub is_finite : Number → Bool
  -- What `||` asks: neither zero nor `NaN`.
  pub is_truthy : Number → Bool
  -- The number, where it is a whole one that is not negative.
  pub to_count : Number → Option ℕ
  pub of_count : ℕ → Number
  -- `String(x)` and `x.toFixed(2)`.
  pub to_text : Number → String
  pub to_fixed : Number → String
  -- `x.toFixed(d)`
  pub fixed_to : ℕ → Number → String
