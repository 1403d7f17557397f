-- ===== src/Klines/Spans.antt =====
-- Closed wall-clock intervals: `mergeSpans` and `missingSpans` of klines.ts.
pub mod Coverage
pub mod Merge
pub mod Canonical
pub mod Missing
pub mod Refetch
use trade_gate.Prelude.{
  ℕ, ◌+◌, ◌-◌, min, max, Bool, false, ◌&&◌, List, [], ◌∷◌, ltb, leb, if◌then◌else◌, filter, any,
  sort_by,
}

-- Inclusive on both ends.
pub record Span : Type 0 where
  pub from : ℕ
  pub to : ℕ

abbrev pub is_span : Span → Bool
is_span s = leb s.from s.to

-- The loop of `mergeSpans`; `last` is the last element of `out`, which the loop overwrites.
unfoldable pub coalesce : Span → List Span → List Span
coalesce last [] = last ∷ []
coalesce last (s ∷ rest) =
    let joined = coalesce (record last { to = max last.to s.to }) rest in
    let pushed = last ∷ coalesce s rest in if leb s.from (last.to + 1) then joined else pushed

-- The loop from an empty `out`.
unfoldable pub coalesce_all : List Span → List Span
unfolding coalesce
coalesce_all [] = []
coalesce_all (s ∷ rest) = coalesce s rest

unfoldable pub merge_spans : List Span → List Span
unfolding coalesce_all
merge_spans spans = coalesce_all (sort_by (λ s. s.from) (filter is_span spans))

-- What `missingSpans` does after its loop, from the cursor.
unfoldable pub close_gap : ℕ → ℕ → List Span
close_gap cursor to = if leb cursor to then record { from = cursor; to = to } ∷ [] else []

-- What the body of the loop pushes before a covered span.
unfoldable pub gap_before : ℕ → ℕ → Span → List Span → List Span
gap_before cursor to s rest =
    if ltb cursor s.from then record { from = cursor; to = min to (s.from - 1) } ∷ rest else rest

-- The loop of `missingSpans` over the merged spans, and the push behind it.
unfoldable pub gaps_from : ℕ → ℕ → List Span → List Span
gaps_from cursor to [] = close_gap cursor to
gaps_from cursor to (s ∷ rest) =
    let skipped = gaps_from cursor to rest in
    let next = max cursor (s.to + 1) in
    let later = gap_before cursor to s (gaps_from next to rest) in
    let stopped = gap_before cursor to s [] in
    if ltb s.to cursor
    then skipped
    else if ltb to s.from
    then close_gap cursor to
    else if ltb to next
    then stopped
    else later

-- Fragments shorter than one bar are dropped.
abbrev pub is_long : ℕ → Span → Bool
is_long step s = leb step (s.to - s.from)

unfoldable pub missing_spans : List Span → ℕ → ℕ → ℕ → List Span
unfolding gaps_from close_gap gap_before merge_spans
missing_spans covered from to step = filter (is_long step) (gaps_from from to (merge_spans covered))
