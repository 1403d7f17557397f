-- ===== src/Klines/Spans/Missing.antt =====
-- `missingSpans` returns the part of the asked interval that no covered span holds, but for
-- fragments shorter than one bar.
use trade_gate.Prelude.{
  ℕ, ◌+◌, ◌≤◌, ◌<◌, ◌≡◌, Bool, true, false, not, ◌&&◌, ◌||◌, List, [], ◌∷◌, arith, ltb, leb, filter,
  max,
}
use trade_gate.Klines.Spans.{
  Span, is_long, close_gap, gap_before, gaps_from, merge_spans, missing_spans,
}
use trade_gate.Klines.Spans.Coverage.{covers, SeparatedFrom, SeparatedFrom-mono, covers_below}
use trade_gate.Klines.Spans.Merge.{covers-merge_spans, merge_spans-IsSeparated}

covers-close_gap : (x cursor to : ℕ) → covers x (close_gap cursor to) ≡ (leb cursor x && leb x to)
unfolding close_gap
covers-close_gap x cursor to = ground arith

covers-gap_before :
    (x cursor to : ℕ) (s : Span) (rest : List Span)
    → covers x (gap_before cursor to s rest)
      ≡ (leb cursor x && leb x to && ltb x s.from || covers x rest)
unfolding gap_before
covers-gap_before x cursor to s rest = ground arith

covers-gaps_from :
    (x n cursor to : ℕ) (l : List Span)
    → SeparatedFrom n l
    → covers x (gaps_from cursor to l) ≡ (leb cursor x && leb x to && not (covers x l))
unfolding gaps_from
covers-gaps_from x n cursor to [] p = ground (arith, covers-close_gap x cursor to)
covers-gaps_from x n cursor to (s ∷ l) p = ground (
  arith,
  covers-close_gap x cursor to,
  covers-gap_before x cursor to s [],
  covers-gap_before x cursor to s (gaps_from (max cursor (s.to + 1)) to l),
  covers-gaps_from x (s.to + 2) cursor to l p.2,
  covers-gaps_from x (s.to + 2) (max cursor (s.to + 1)) to l p.2,
  covers_below x (s.to + 2) l p.2,
)

gaps_from-SeparatedFrom :
    (n cursor to : ℕ) (l : List Span)
    → SeparatedFrom n l
    → SeparatedFrom cursor (gaps_from cursor to l)
unfolding gaps_from gap_before close_gap
gaps_from-SeparatedFrom n cursor to [] p = ground arith
gaps_from-SeparatedFrom n cursor to (s ∷ l) p = ground (
  arith,
  gaps_from-SeparatedFrom (s.to + 2) cursor to l p.2,
  gaps_from-SeparatedFrom (s.to + 2) (max cursor (s.to + 1)) to l p.2,
  SeparatedFrom-mono (s.from + 1) (max cursor (s.to + 1)) (gaps_from (max cursor (s.to + 1)) to l),
  SeparatedFrom-mono cursor (max cursor (s.to + 1)) (gaps_from (max cursor (s.to + 1)) to l),
)

covers-filter_sub :
    (x : ℕ) (p : Span → Bool) (l : List Span) → covers x (filter p l) ≡ true → covers x l ≡ true
covers-filter_sub x p [] h = h
covers-filter_sub x p (s ∷ l) h = ground (arith, covers-filter_sub x p l)

filter-SeparatedFrom :
    (n : ℕ) (p : Span → Bool) (l : List Span) → SeparatedFrom n l → SeparatedFrom n (filter p l)
filter-SeparatedFrom n p [] h = tt
filter-SeparatedFrom n p (s ∷ l) h =
    ground
      (arith, filter-SeparatedFrom (s.to + 2) p l h.2, SeparatedFrom-mono n (s.to + 2) (filter p l))

-- Moments `x` to `x + step` without a break lie in one span, which is long enough to stay.
covers-filter-is_long :
    (x n step : ℕ) (l : List Span)
    → SeparatedFrom n l
    → ((y : ℕ) → x ≤ y → y ≤ x + step → covers y l ≡ true)
    → covers x (filter (is_long step) l) ≡ true
covers-filter-is_long x n step [] p h = absurd (ground (arith, h x))
covers-filter-is_long x n step (s ∷ l) p h =
    let later = λ (past : s.to < x).
      covers-filter-is_long x (s.to + 2) step l p.2 (λ y a b. skip_head past y a b) in
    ground (
      arith,
      h x,
      h (s.to + 1),
      covers_below x (s.to + 2) l p.2,
      covers_below (s.to + 1) (s.to + 2) l p.2,
      later,
    )
  where
    skip_head : s.to < x → (y : ℕ) → x ≤ y → y ≤ x + step → covers y l ≡ true
    skip_head past y a b = ground (arith, h y)

module _ (covered : List Span) (from to step : ℕ) where
  gaps : List Span
  gaps = gaps_from from to (merge_spans covered)

  covers-gaps : (x : ℕ) → covers x gaps ≡ (leb from x && leb x to && not (covers x covered))
  unfolding gaps
  covers-gaps x = ground (
    arith,
    covers-gaps_from x 0 from to (merge_spans covered) (merge_spans-IsSeparated covered),
    covers-merge_spans covered x,
  )

  gaps-IsSeparated : SeparatedFrom from gaps
  unfolding gaps
  gaps-IsSeparated =
      gaps_from-SeparatedFrom 0 from to (merge_spans covered) (merge_spans-IsSeparated covered)

  -- What is still to be fetched lies in the asked interval, and nothing of it was covered.
  pub missing_spans_sound :
      (x : ℕ)
      → covers x (missing_spans covered from to step) ≡ true
      → (from ≤ x) × (x ≤ to) × (covers x covered ≡ false)
  unfolding missing_spans gaps
  missing_spans_sound x h = ground (arith, covers-filter_sub x (is_long step) gaps h, covers-gaps x)

  -- Where `step + 1` moments in a row of the interval are uncovered, the first of them is fetched.
  pub missing_spans_complete :
      (x : ℕ)
      → from ≤ x
      → x + step ≤ to
      → ((y : ℕ) → x ≤ y → y ≤ x + step → covers y covered ≡ false)
      → covers x (missing_spans covered from to step) ≡ true
  unfolding missing_spans gaps
  missing_spans_complete x a b h =
      covers-filter-is_long x from step gaps gaps-IsSeparated
        λ y c d. ground (arith, covers-gaps y, h y)

  -- The requests ascend and no two of them touch.
  pub missing_spans-SeparatedFrom : SeparatedFrom from (missing_spans covered from to step)
  unfolding missing_spans gaps
  missing_spans-SeparatedFrom = filter-SeparatedFrom from (is_long step) gaps gaps-IsSeparated
