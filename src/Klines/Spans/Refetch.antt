-- ===== src/Klines/Spans/Refetch.antt =====
-- What happens when the spans that `missingSpans` asked for are recorded as covered.
use trade_gate.Prelude.{
  ℕ, ◌+◌, ◌-◌, ◌≤◌, ◌≡◌, refl, sym, ap, ◌∙◌, subst, true, false, List, [], ◌∷◌, ◌++◌, arith,
  any-append, filter, All,
}
use trade_gate.Klines.Spans.{Span, is_long, missing_spans}
use trade_gate.Klines.Spans.Coverage.{in_span, covers, SeparatedFrom}
use trade_gate.Klines.Spans.Missing.{
  missing_spans_sound, missing_spans_complete, missing_spans-SeparatedFrom,
}

All-filter-is_long :
    (step : ℕ) (l : List Span) → All (λ s. step ≤ s.to - s.from) (filter (is_long step) l)
All-filter-is_long step [] = tt
All-filter-is_long step (s ∷ l) = ground (arith, All-filter-is_long step l)

missing_spans_long :
    (covered : List Span) (from to step : ℕ)
    → All (λ s. step ≤ s.to - s.from) (missing_spans covered from to step)
unfolding missing_spans
missing_spans_long covered from to step = All-filter-is_long step _

module _ (covered asked : List Span) (from to step : ℕ) where
  -- A moment that is asked for again was not asked for before, and lies in a gap that was dropped.
  pub missing_again :
      (x : ℕ)
      → covers x (missing_spans (covered ++ asked) from to step) ≡ true
      → (from ≤ x) × (x ≤ to) × (covers x covered ≡ false) × (covers x asked ≡ false)
  missing_again x h = ground (
    arith,
    missing_spans_sound (covered ++ asked) from to step x h,
    any-append (in_span x) covered asked,
  )

covers_head :
    (n step : ℕ) (s : Span) (l : List Span)
    → SeparatedFrom n (s ∷ l)
    → step ≤ s.to - s.from
    → (y : ℕ) → s.from ≤ y
    → y ≤ s.from + step
    → covers y (s ∷ l) ≡ true
covers_head n step s l p h y a b = ground arith

-- A long span is asked for again only if a first request already held its start.
no_head :
    (covered : List Span) (from to step : ℕ) (s : Span) (l : List Span)
    → SeparatedFrom from (s ∷ l)
    → step ≤ s.to - s.from
    → ((y : ℕ)
        → covers y (s ∷ l) ≡ true
        → (from ≤ y)
          × (y ≤ to)
          × (covers y covered ≡ false)
          × (covers y (missing_spans covered from to step) ≡ false))
    → ⊥
no_head covered from to step s l p long fresh =
    let held = covers_head from step s l p long in
    let first = fresh s.from (held s.from (omega arith) (omega arith)) in
    let last = fresh (s.from + step) (held (s.from + step) (omega arith) (omega arith)) in
    let hit =
      missing_spans_complete covered from to step s.from first.0 last.1
        (λ y a b. (fresh y (held y a b)).2) in
    ground (arith, hit, first)

refetched :
    (covered : List Span) (from to step : ℕ) (again : List Span)
    → again ≡ missing_spans (covered ++ missing_spans covered from to step) from to step
    → again ≡ []
refetched covered from to step [] e = refl
refetched covered from to step (s ∷ l) e =
    let asked = missing_spans covered from to step in
    absurd (
      no_head covered from to step s l
        (subst (SeparatedFrom from) (sym e)
          (missing_spans-SeparatedFrom (covered ++ asked) from to step))
        (subst (All (λ s. step ≤ s.to - s.from)) (sym e)
          (missing_spans_long (covered ++ asked) from to step)).0
        (λ y h. missing_again covered asked from to step y (ap (covers y) (sym e) ∙ h)))

-- Once the spans that were asked for are recorded, the same request asks for nothing.
pub missing_spans_refetched :
    (covered : List Span) (from to step : ℕ)
    → missing_spans (covered ++ missing_spans covered from to step) from to step ≡ []
missing_spans_refetched covered from to step = refetched covered from to step _ refl
