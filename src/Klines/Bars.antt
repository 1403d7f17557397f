-- ===== src/Klines/Bars.antt =====
-- `mergeBars`, `sliceBars` and `spansFromBars` of klines.ts.
pub mod Merge
pub mod Runs
use trade_gate.Prelude.{
  ℕ, ◌+◌, Bool, ◌&&◌, not, Option, none, some, String, List, [], ◌∷◌, ◌++◌, foldl, leb, ◌==◌,
  nat_eq, if◌then◌else◌, filter, sort_by,
}
use trade_gate.Dict
use trade_gate.Klines.Spans.{Span, merge_spans}

-- Prices and the volume are decimal texts.
pub record Kline : Type 0 where
  pub open_time : ℕ
  pub open_price : String
  pub high : String
  pub low : String
  pub close : String
  pub volume : String
  pub close_time : ℕ

-- `for (const k of bars) m.set(k.open_time, k)`
unfoldable pub set_bars : List (ℕ × Kline) → List Kline → List (ℕ × Kline)
set_bars m [] = m
set_bars m (k ∷ bars) = set_bars (Dict.set k.open_time k m) bars

unfoldable pub merge_bars : List Kline → List Kline → List Kline
unfolding set_bars
merge_bars a b = sort_by (λ k. k.open_time) (Dict.values (set_bars (set_bars [] a) b))

unfoldable pub slice_bars : List Kline → ℕ → ℕ → List Kline
slice_bars bars from to = filter (λ k. leb from k.close_time && leb k.open_time to) bars

-- The loop of `spansFromBars` from a run that began at `start` and ended with `prev`.
unfoldable pub runs_from : ℕ → ℕ → Kline → List Kline → List Span
runs_from step start prev [] = record { from = start; to = prev.close_time } ∷ []
runs_from step start prev (k ∷ bars) =
    let broken =
      record { from = start; to = prev.close_time } ∷ runs_from step k.open_time k bars in
    let goes_on = runs_from step start k bars in
    if not (k.open_time == prev.open_time + step) then broken else goes_on

unfoldable pub spans_from_bars : List Kline → ℕ → List Span
unfolding runs_from merge_spans
spans_from_bars [] step = merge_spans []
spans_from_bars (k ∷ bars) step = merge_spans (runs_from step k.open_time k bars)
