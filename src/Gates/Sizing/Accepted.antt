-- ===== src/Gates/Sizing/Accepted.antt =====
-- What an accepted size respects, at every price at which the order may fill.
use trade_gate.Prelude.{◌≡◌, true, false, Option, none, some, String, List, [], ◌∷◌, string_eq}
use trade_gate.Numbers.{Numbers}
use trade_gate.Threads.Types.{Direction, long, short}
use trade_gate.Gates.Types.{GateConfig}
use trade_gate.Gates.Sizing.{SymbolRules, SizingOptions, Basis, or_zero}

-- What the proof needs of the floats: `Math.max` and `Math.min` of two finite numbers bound both,
-- multiplying by one positive number keeps an order, so that it carries a comparison over, and of
-- two prices on one side of a stop the further one has the larger distance.
pub record SizeLaws (N : Numbers) : Type 0 where
  pub greatest_above :
      (a b : N.Number)
      → N.is_finite a ≡ true
      → N.is_finite b ≡ true
      → (N.le a (N.greatest a b) ≡ true) × (N.le b (N.greatest a b) ≡ true)
  pub least_below :
      (a b : N.Number)
      → N.is_finite a ≡ true
      → N.is_finite b ≡ true
      → (N.le (N.least a b) a ≡ true) × (N.le (N.least a b) b ≡ true)
  pub le_refl : (a : N.Number) → N.is_finite a ≡ true → N.le a a ≡ true
  pub mul_over :
      (c q x y : N.Number)
      → N.lt (N.of_text "0") q ≡ true
      → N.le x y ≡ true
      → N.lt c (N.mul q x) ≡ true
      → N.lt c (N.mul q y) ≡ true
  pub mul_under :
      (c q x y : N.Number)
      → N.lt (N.of_text "0") q ≡ true
      → N.le x y ≡ true
      → N.lt (N.mul q y) c ≡ true
      → N.lt (N.mul q x) c ≡ true
  pub dist_above :
      (stop x y : N.Number)
      → N.le stop x ≡ true
      → N.le x y ≡ true
      → N.le (N.abs (N.sub x stop)) (N.abs (N.sub y stop)) ≡ true
  pub dist_below :
      (stop x y : N.Number)
      → N.le x stop ≡ true
      → N.le y x ≡ true
      → N.le (N.abs (N.sub x stop)) (N.abs (N.sub y stop)) ≡ true

module _ (N : Numbers) where
  open N use {Number, of_text, lt, le, add, sub, mul, div, abs, is_finite}

  -- The prices at which the order may fill: the mark, and its limit.
  abbrev pub prices_of : Option Number → Number → List Number
  prices_of none mark = mark ∷ []
  prices_of (some lim) mark = mark ∷ lim ∷ []

  -- At the price `x` the notional is within the cap of the account, the liquidity and the exchange.
  abbrev FitsAt : Basis N → Number → Number → Type 0
  FitsAt b q x =
      (lt (mul b.max_notional (of_text "1.0001")) (mul q x) ≡ false)
      × (lt b.liquidity_cap (mul q x) ≡ false)
      × (lt (mul q x) b.min_notional ≡ false)

  -- The stop is on the losing side of the price.
  abbrev pub IsBehind : Direction → Number → Number → Type 0
  IsBehind long stop x = le stop x ≡ true
  IsBehind short stop x = le x stop ≡ true

  -- `y` is no better a price to enter at than `x`.
  abbrev IsWorse : Direction → Number → Number → Type 0
  IsWorse long x y = le x y ≡ true
  IsWorse short x y = le y x ≡ true

  -- At the price `x` the quantity `q` loses at most 1.05 times the share of the equity that is risked,
  -- up to a tolerance.
  abbrev pub RisksAt : String → Number → Number → Number → Number → Type 0
  RisksAt equity risk_pct stop q x =
      lt
        (add (mul (div (mul (of_text equity) risk_pct) (of_text "100")) (of_text "1.05"))
          (of_text "1e-9"))
        (mul q (abs (sub x stop)))
      ≡ false

  abbrev pub cap_or_infinity : Option Number → Number
  cap_or_infinity none = of_text "Infinity"
  cap_or_infinity (some cap) = cap

  -- At the price `x` the notional is within the account's multiple (up to a tolerance) and the
  -- liquidity, and not under the exchange's minimum.
  abbrev pub IsWithin :
      String → GateConfig N → SymbolRules → SizingOptions N → Number → Number → Type 0
  IsWithin equity cfg rules options q x =
      (lt (mul (mul (of_text equity) cfg.max_notional_multiple) (of_text "1.0001")) (mul q x)
        ≡ false)
      × (lt (cap_or_infinity options.liquidity_notional_cap) (mul q x) ≡ false)
      × (lt (mul q x) (of_text (or_zero rules.min_notional)) ≡ false)
