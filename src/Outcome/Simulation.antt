-- ===== src/Outcome/Simulation.antt =====
-- `findFill` and `simulateOutcome`.
pub mod Walk
pub mod Fill
use trade_gate.Prelude.{
  ℕ, suc, ◌-◌, Bool, Option, none, some, List, [], ◌∷◌, if◌then◌else◌, length, drop,
}
use trade_gate.Numbers.{Numbers}
use trade_gate.Klines.Bars.{Kline}
use trade_gate.Threads.Types.{Direction, EntryType, market, limit}
use trade_gate.Outcome.Trade.{ExitStatus, OpenTrade, Exit, by_side, open_trade, trade_r, step_trade}

pub data OutcomeStatus : Type 0 where
  exited : ExitStatus → OutcomeStatus
  expired unfilled invalid : OutcomeStatus

module _ (N : Numbers) where
  open N use {Number, of_text, le, least, greatest}

  pub record OutcomeInput : Type 0 where
    pub direction : Direction
    pub entry : EntryType
    pub limit_price : Option Number
    pub stop_price : Number
    pub tp_price : Option Number
    pub bars : List Kline

  -- The fields that a filled trade has, together.
  pub record Filled : Type 0 where
    pub fill_price : Number
    pub fill_bar : ℕ
    pub exit_price : Number
    pub exit_bar : ℕ
    pub stop_distance : Number
    pub r : Number
    pub mae_r : Number
    pub mfe_r : Number
    pub bars_held : ℕ

  pub record Outcome : Type 0 where
    pub status : OutcomeStatus
    pub filled : Option Filled

  abbrev unfilled_as : OutcomeStatus → Outcome
  unfilled_as status = record { status = status; filled = none }

  unfoldable pub touched : Direction → Number → Kline → Bool
  touched direction lim b = by_side N direction (le (of_text b.low) lim) (le lim (of_text b.high))

  -- The loop of `findFill` from the index `i`.
  unfoldable pub first_touch : Direction → Number → ℕ → List Kline → Option (ℕ × Number)
  unfolding touched
  first_touch direction lim i [] = none
  first_touch direction lim i (b ∷ bars) =
      let rest = first_touch direction lim (suc i) bars in
      let o = of_text b.open_price in
      if touched direction lim b
      then some (i, by_side N direction (least o lim) (greatest o lim))
      else rest

  unfoldable pub find_fill :
      Direction → EntryType → Option Number → List Kline → Option (ℕ × Number)
  unfolding first_touch
  find_fill direction entry limit_price [] = none
  find_fill direction market limit_price (b ∷ bars) = some (0, of_text b.open_price)
  find_fill direction limit none (b ∷ bars) = none
  find_fill direction limit (some lim) (b ∷ bars) = first_touch direction lim 0 (b ∷ bars)

  -- The loop of `simulateOutcome` from the index `i`.
  unfoldable pub walk : OpenTrade N → ℕ → List Kline → OpenTrade N × Option (ℕ × Exit N)
  unfolding step_trade
  walk t i [] = (t, none)
  walk t i (bar ∷ bars) = elim (step_trade N t bar).1 [
    | none ↦ walk (step_trade N t bar).0 (suc i) bars
    | some exit ↦ ((step_trade N t bar).0, some (i, exit))
  ]

  -- `bars[bars.length - 1]`
  abbrev pub last_bar : Kline → List Kline → Kline
  last_bar b [] = b
  last_bar b (c ∷ bars) = last_bar c bars

  unfoldable pub report : OpenTrade N → ℕ → Number → ℕ → OutcomeStatus → Outcome
  unfolding trade_r
  report t fill_bar exit_price exit_bar status = record {
    status = status;
    filled = some (record {
      fill_price = t.fill_price;
      fill_bar = fill_bar;
      exit_price = exit_price;
      exit_bar = exit_bar;
      stop_distance = t.stop_distance;
      r = trade_r N t exit_price;
      mae_r = t.mae_r;
      mfe_r = t.mfe_r;
      bars_held = t.bars_held;
    });
  }

  unfoldable pub after_walk : ℕ → Kline → List Kline → OpenTrade N × Option (ℕ × Exit N) → Outcome
  unfolding report
  after_walk fill_bar b bars (t, some (i, exit)) =
      report t fill_bar exit.price i (exited exit.status)
  after_walk fill_bar b bars (t, none) =
      report t fill_bar (of_text (last_bar b bars).close) (length bars) expired

  unfoldable pub after_fill : OutcomeInput → Kline → List Kline → Option (ℕ × Number) → Outcome
  unfolding open_trade walk after_walk
  after_fill inp b bars none = unfilled_as unfilled
  after_fill inp b bars (some (fill_bar, price)) =
      elim (open_trade N inp.direction price inp.stop_price inp.tp_price) [
        | none ↦ unfilled_as invalid
        | some t ↦ after_walk fill_bar b bars (walk t fill_bar (drop fill_bar (b ∷ bars)))
      ]

  unfoldable pub simulate : OutcomeInput → List Kline → Outcome
  unfolding find_fill after_fill
  simulate inp [] = unfilled_as invalid
  simulate inp (b ∷ bars) =
      let filled =
        after_fill inp b bars (find_fill inp.direction inp.entry inp.limit_price (b ∷ bars)) in
      elim inp.entry [
        | market ↦ filled
        | limit ↦ elim inp.limit_price [ none ↦ unfilled_as invalid | some lim ↦ filled ]
      ]

  unfoldable pub simulate_outcome : OutcomeInput → Outcome
  unfolding simulate
  simulate_outcome inp = simulate inp inp.bars
