-- ===== src/Outcome/Missed.antt =====
-- `missedMove`: the largest excursions from a price, in units of the ATR.
use trade_gate.Prelude.{not, Option, none, some, List, [], ◌∷◌, if◌then◌else◌}
use trade_gate.Numbers.{Numbers}
use trade_gate.Klines.Bars.{Kline}

module _ (N : Numbers) where
  open N use {Number, of_text, lt, sub, div, least, greatest}

  pub record Missed : Type 0 where
    pub up_atr : Number
    pub down_atr : Number
    pub max_atr : Number

  -- The loop: the highest high and the lowest low.
  unfoldable pub extremes : Number → Number → List Kline → Number × Number
  extremes hi lo [] = (hi, lo)
  extremes hi lo (b ∷ bars) =
      extremes (greatest hi (of_text b.high)) (least lo (of_text b.low)) bars

  unfoldable pub missed_move : Number → Number → List Kline → Option Missed
  unfolding extremes
  missed_move p0 atr [] = none
  missed_move p0 atr (b ∷ bars) =
      let (hi, lo) = extremes (of_text "-Infinity") (of_text "Infinity") (b ∷ bars) in
      let up = div (sub hi p0) atr in
      let down = div (sub p0 lo) atr in
      let moved : Missed = record { up_atr = up; down_atr = down; max_atr = greatest up down } in
      if not (lt (of_text "0") atr) then none else some moved
