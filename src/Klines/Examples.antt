-- ===== src/Klines/Examples.antt =====
-- The theorems on klines.ts at concrete bars and spans.
use trade_gate.Prelude.{
  ℕ, ◌+◌, ◌≤◌, ◌≡◌, refl, true, false, List, [], ◌∷◌, ◌++◌, arith, All, filter, insert_by, sort_by,
}
use trade_gate.Klines.Spans.{Span, merge_spans, missing_spans}
use trade_gate.Klines.Spans.Coverage.{covers}
use trade_gate.Klines.Spans.Canonical.{merge_spans_canonical}
use trade_gate.Klines.Spans.Missing.{missing_spans_sound, missing_spans_complete}
use trade_gate.Klines.Spans.Refetch.{missing_spans_refetched}
use trade_gate.Klines.Bars.{Kline}
use trade_gate.Klines.Bars.Runs.{IsBarOf}
use trade_gate.Klines.Window.{visible_window}
use trade_gate.Klines.Window.Search.{Ascends, last_of, closed_by, visible_window-eq-last_of}

abbrev span : ℕ → ℕ → Span
span a b = record { from = a; to = b }

abbrev scattered : List Span
scattered = span 20 29 ∷ span 0 9 ∷ span 10 12 ∷ span 40 39 ∷ []

abbrev bar : ℕ → Kline
bar t = record {
  open_time = t;
  open_price = "1";
  high = "2";
  low = "1";
  close = "2";
  volume = "5";
  close_time = t + 9;
}

abbrev three_bars : List Kline
three_bars = bar 0 ∷ bar 10 ∷ bar 30 ∷ []

merged : merge_spans scattered ≡ span 0 12 ∷ span 20 29 ∷ []
unfolding merge_spans sort_by insert_by
merged = refl

missing : missing_spans scattered 5 60 5 ≡ span 13 19 ∷ span 30 60 ∷ []
unfolding missing_spans sort_by insert_by
missing = refl

two_visible : visible_window three_bars 25 2 ≡ bar 0 ∷ bar 10 ∷ []
unfolding visible_window
two_visible = refl

merge_spans_canonical_example : merge_spans (span 7 7 ∷ []) ≡ merge_spans (span 7 7 ∷ span 5 4 ∷ [])
merge_spans_canonical_example =
    merge_spans_canonical (span 7 7 ∷ []) (span 7 7 ∷ span 5 4 ∷ []) λ x. ground arith

missing_spans_sound_example : (5 ≤ 15) × (15 ≤ 60) × (covers 15 scattered ≡ false)
unfolding missing_spans sort_by insert_by
missing_spans_sound_example = missing_spans_sound scattered 5 60 5 15 refl

missing_spans_complete_example : covers 31 (missing_spans scattered 5 60 5) ≡ true
missing_spans_complete_example =
    missing_spans_complete scattered 5 60 5 31 (omega arith) (omega arith) λ y a b. ground arith

missing_spans_refetched_example :
    missing_spans (scattered ++ missing_spans scattered 5 60 5) 5 60 5 ≡ []
missing_spans_refetched_example = missing_spans_refetched scattered 5 60 5

three_bars-IsBarOf : All (IsBarOf 10) three_bars
three_bars-IsBarOf = ground arith

three_bars-Ascends : Ascends three_bars
three_bars-Ascends = ground arith

visible_window-eq-last_of_example :
    visible_window three_bars 25 1 ≡ last_of 1 (filter (closed_by 25) three_bars)
visible_window-eq-last_of_example = visible_window-eq-last_of three_bars 25 three_bars-Ascends 1
