-- ===== src/Paper/Close.antt =====
-- Closing a position: its protective orders end with it.
use trade_gate.Prelude.{◌≡◌, true, string_eq, nat_eq}
use trade_gate.Dict
use trade_gate.Numbers.{Numbers}
use trade_gate.Threads.Types.{Direction, long, short}
use trade_gate.Paper.Types.{Orders, Paper}

-- What the proof needs of the floats: a finite number is the least of itself and itself, and is not
-- under itself less a small amount.
pub record CloseLaws (N : Numbers) : Type 0 where
  pub least_self : (a : N.Number) → N.is_finite a ≡ true → N.least a a ≡ a
  pub le_slack : (a : N.Number) → N.is_finite a ≡ true → N.le (N.sub a (N.of_text "1e-12")) a ≡ true

module _ (N : Numbers) where
  open N use {Number, of_text, le, add, sub, mul, is_finite}

  -- What a position of the quantity `q` gains or loses from `entry` to `price`.
  abbrev pub gain_of : Direction → Number → Number → Number → Number
  gain_of long entry price q = mul (sub price entry) q
  gain_of short entry price q = mul (sub entry price) q
