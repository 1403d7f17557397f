-- ===== src/Klines/Bars/Runs.antt =====
-- The coverage that a cache file without `ranges` implies: `spansFromBars`.
use trade_gate.Prelude.{
  ℕ, ◌+◌, ◌≤◌, ◌<◌, ◌≡◌, refl, ◌∙◌, Bool, ◌&&◌, ◌||◌, List, [], ◌∷◌, arith, leb, any, All,
}
use trade_gate.Klines.Spans.Coverage.{covers}
use trade_gate.Klines.Spans.Merge.{covers-merge_spans}
use trade_gate.Klines.Bars.{Kline, runs_from, spans_from_bars}

-- A bar of the timeframe: it ends one millisecond before the next one opens.
abbrev pub IsBarOf : ℕ → Kline → Type 0
IsBarOf step k = (0 < step) × (k.close_time + 1 ≡ k.open_time + step)

abbrev pub in_bar : ℕ → Kline → Bool
in_bar x k = leb k.open_time x && leb x k.close_time

covers-runs_from :
    (x step start : ℕ) (prev : Kline) (bars : List Kline)
    → start ≤ prev.open_time
    → IsBarOf step prev
    → All (IsBarOf step) bars
    → covers x (runs_from step start prev bars)
      ≡ (leb start x && leb x prev.close_time || any (in_bar x) bars)
unfolding runs_from
covers-runs_from x step start prev [] h p a = refl
covers-runs_from x step start prev (k ∷ bars) h p a = ground (
  arith,
  covers-runs_from x step k.open_time k bars (omega arith) a.0 a.1,
  covers-runs_from x step start k bars,
)

-- Where each of the bars is one timeframe long, a moment is covered exactly when one of them holds
-- it.
pub covers-spans_from_bars :
    (x step : ℕ) (bars : List Kline)
    → All (IsBarOf step) bars
    → covers x (spans_from_bars bars step) ≡ any (in_bar x) bars
unfolding spans_from_bars
covers-spans_from_bars x step [] a = covers-merge_spans [] x
covers-spans_from_bars x step (k ∷ bars) a =
    covers-merge_spans (runs_from step k.open_time k bars) x
    ∙ covers-runs_from x step k.open_time k bars (omega arith) a.0 a.1
