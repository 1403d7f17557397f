-- ===== src/Outcome/Trade.antt =====
-- One trade, bar by bar: `openTrade`, `tradeR` and `stepTrade`.
use trade_gate.Prelude.{ℕ, suc, Bool, false, not, Option, none, some, if◌then◌else◌}
use trade_gate.Numbers.{Numbers}
use trade_gate.Klines.Bars.{Kline}
use trade_gate.Threads.Types.{Direction, long, short}

pub data ExitStatus : Type 0 where
  stop tp : ExitStatus

module _ (N : Numbers) where
  open N use {Number, of_text, lt, le, sub, mul, div, least, greatest}

  pub record OpenTrade : Type 0 where
    pub direction : Direction
    pub fill_price : Number
    pub stop_price : Number
    pub tp_price : Option Number
    pub stop_distance : Number
    pub mae_r : Number
    pub mfe_r : Number
    pub bars_held : ℕ

  pub record Exit : Type 0 where
    pub price : Number
    pub status : ExitStatus

  -- `sgn`
  abbrev pub sign : Direction → Number
  sign long = of_text "1"
  sign short = of_text "-1"

  -- What a trade for the side wants, and what it fears.
  abbrev pub by_side : {T : Type 0} → Direction → T → T → T
  by_side long a b = a
  by_side short a b = b

  unfoldable pub open_trade : Direction → Number → Number → Option Number → Option OpenTrade
  open_trade direction fill stop_price tp_price =
      let distance = mul (sign direction) (sub fill stop_price) in
      let trade : OpenTrade = record {
        direction = direction;
        fill_price = fill;
        stop_price = stop_price;
        tp_price = tp_price;
        stop_distance = distance;
        mae_r = of_text "0";
        mfe_r = of_text "0";
        bars_held = 0;
      } in
      if not (lt (of_text "0") distance) then none else some trade

  unfoldable pub trade_r : OpenTrade → Number → Number
  trade_r t px = div (mul (sign t.direction) (sub px t.fill_price)) t.stop_distance

  unfoldable pub hit_stop : OpenTrade → Kline → Bool
  hit_stop t bar =
      by_side t.direction (le (of_text bar.low) t.stop_price) (le t.stop_price (of_text bar.high))

  unfoldable pub hit_tp : OpenTrade → Kline → Bool
  hit_tp t bar = elim t.tp_price [
    | none ↦ false
    | some p ↦ by_side t.direction (le p (of_text bar.high)) (le (of_text bar.low) p)
  ]

  -- The price at a stop, or at the open of a bar that opens beyond it.
  unfoldable pub stop_exit : OpenTrade → Kline → Exit
  stop_exit t bar =
      let o = of_text bar.open_price in
      let gapped = by_side t.direction (lt o t.stop_price) (lt t.stop_price o) in
      record { price = if gapped then o else t.stop_price; status = stop }

  unfoldable pub tp_exit : OpenTrade → Kline → Number → Exit
  tp_exit t bar p =
      let o = of_text bar.open_price in
      let gapped = by_side t.direction (lt p o) (lt o p) in
      record { price = if gapped then o else p; status = tp }

  -- The tests of `stepTrade`, the stop first.
  unfoldable pub exit_of : OpenTrade → Kline → Option Exit
  unfolding hit_stop hit_tp stop_exit tp_exit
  exit_of t bar = if hit_stop t bar then some (stop_exit t bar) else elim t.tp_price [
    | none ↦ none
    | some p ↦ if hit_tp t bar then some (tp_exit t bar p) else none
  ]

  unfoldable pub step_trade : OpenTrade → Kline → OpenTrade × Option Exit
  unfolding exit_of trade_r
  step_trade t bar =
      let low = of_text bar.low in
      let high = of_text bar.high in
      (
        record t {
          mae_r = least t.mae_r (trade_r t (by_side t.direction low high));
          mfe_r = greatest t.mfe_r (trade_r t (by_side t.direction high low));
          bars_held = suc t.bars_held;
        },
        exit_of t bar,
      )
