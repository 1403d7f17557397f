-- ===== src/Outcome/Examples.antt =====
-- The theorems on outcome.ts at three bars, with whole numbers for the floats.
use trade_gate.Prelude.{◌≡◌, refl, some, String, List, [], ◌∷◌, ◌==◌, string_eq, if◌then◌else◌}
use trade_gate.Numbers.{Numbers}
use trade_gate.Numbers.Whole.{whole}
use trade_gate.Klines.Bars.{Kline}
use trade_gate.Threads.Types.{long}
use trade_gate.Outcome.Trade.{stop, OpenTrade}
use trade_gate.Outcome.Simulation.{walk}
use trade_gate.Outcome.Simulation.Walk.{Leaves, walk-Leaves}

abbrev floats : Numbers
floats =
    whole (λ s. if s == "90" then 90 else if s == "100" then 100 else if s == "110" then 110 else 0)

abbrev bar : String → String → Kline
bar low high = record {
  open_time = 0;
  open_price = "100";
  high = high;
  low = low;
  close = "100";
  volume = "1";
  close_time = 9;
}

abbrev three_bars : List Kline
three_bars = bar "100" "100" ∷ bar "100" "110" ∷ bar "90" "110" ∷ []

abbrev trade : OpenTrade floats
trade = record {
  direction = long;
  fill_price = 100;
  stop_price = 95;
  tp_price = some 120;
  stop_distance = 5;
  mae_r = 0;
  mfe_r = 0;
  bars_held = 0;
}

stopped : (walk floats trade 0 three_bars).1 ≡ some (2, record { price = 95; status = stop })
unfolding walk
stopped = refl

walk-Leaves_example : Leaves floats trade 0 three_bars (walk floats trade 0 three_bars)
walk-Leaves_example = walk-Leaves floats trade 0 three_bars
