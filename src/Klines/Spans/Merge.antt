-- ===== src/Klines/Spans/Merge.antt =====
-- `mergeSpans` covers what its input covers, and returns the one separated list that does.
use trade_gate.Prelude.{
  ℕ, ◌+◌, ◌≤◌, ◌≡◌, refl, ◌∙◌, ◌||◌, List, [], ◌∷◌, arith, filter, sort_by, All, IsSortedBy,
  sort_by-IsSortedBy, any-sort_by, All-sort_by, max,
}
use trade_gate.Klines.Spans.{Span, is_span, coalesce, coalesce_all, merge_spans}
use trade_gate.Klines.Spans.Coverage.{
  in_span, covers, SeparatedFrom, IsSeparated, SeparatedFrom-mono, covers-filter,
}

abbrev AllSpans : List Span → Type 0
AllSpans = All (λ s. s.from ≤ s.to)

AllSpans-filter : (l : List Span) → AllSpans (filter is_span l)
AllSpans-filter [] = tt
AllSpans-filter (s ∷ l) = ground (arith, AllSpans-filter l)

covers-coalesce :
    (x : ℕ) (last : Span) (l : List Span)
    → last.from ≤ last.to
    → All (λ s. last.from ≤ s.from) l
    → IsSortedBy (λ s. s.from) l
    → AllSpans l
    → covers x (coalesce last l) ≡ (in_span x last || covers x l)
unfolding coalesce
covers-coalesce x last [] h a b c = refl
covers-coalesce x last (s ∷ l) h a b c =
    let wide : Span = record last { to = max last.to s.to } in
    ground (
      arith,
      covers-coalesce x wide l (omega arith) a.1 b.1 c.1,
      covers-coalesce x s l c.0 b.0 b.1 c.1,
    )

coalesce-SeparatedFrom :
    (last : Span) (l : List Span)
    → last.from ≤ last.to
    → All (λ s. last.from ≤ s.from) l
    → IsSortedBy (λ s. s.from) l
    → AllSpans l
    → SeparatedFrom last.from (coalesce last l)
unfolding coalesce
coalesce-SeparatedFrom last [] h a b c = (omega arith, h, tt)
coalesce-SeparatedFrom last (s ∷ l) h a b c =
    let wide : Span = record last { to = max last.to s.to } in
    ground (
      arith,
      coalesce-SeparatedFrom wide l (omega arith) a.1 b.1 c.1,
      coalesce-SeparatedFrom s l c.0 b.0 b.1 c.1,
      SeparatedFrom-mono (last.to + 2) s.from (coalesce s l),
    )

covers-coalesce_all :
    (x : ℕ) (l : List Span)
    → IsSortedBy (λ s. s.from) l
    → AllSpans l
    → covers x (coalesce_all l) ≡ covers x l
unfolding coalesce_all
covers-coalesce_all x [] b c = refl
covers-coalesce_all x (s ∷ l) b c = covers-coalesce x s l c.0 b.0 b.1 c.1

coalesce_all-IsSeparated :
    (l : List Span) → IsSortedBy (λ s. s.from) l → AllSpans l → IsSeparated (coalesce_all l)
unfolding coalesce_all
coalesce_all-IsSeparated [] b c = tt
coalesce_all-IsSeparated (s ∷ l) b c =
    SeparatedFrom-mono 0 s.from (coalesce s l) (omega arith)
      (coalesce-SeparatedFrom s l c.0 b.0 b.1 c.1)

module _ (spans : List Span) where
  abbrev ascending : List Span
  ascending = sort_by (λ s. s.from) (filter is_span spans)

  ascending-AllSpans : AllSpans ascending
  ascending-AllSpans = All-sort_by (λ s. s.from) _ (filter is_span spans) (AllSpans-filter spans)

  -- Merging neither adds a moment nor loses one.
  pub covers-merge_spans : (x : ℕ) → covers x (merge_spans spans) ≡ covers x spans
  unfolding merge_spans
  covers-merge_spans x =
      covers-coalesce_all x ascending (sort_by-IsSortedBy _ _) ascending-AllSpans
      ∙ any-sort_by (λ s. s.from) (in_span x) (filter is_span spans)
      ∙ covers-filter x spans

  -- The merged spans ascend, are nonempty, and leave a free moment between any two.
  pub merge_spans-IsSeparated : IsSeparated (merge_spans spans)
  unfolding merge_spans
  merge_spans-IsSeparated =
      coalesce_all-IsSeparated ascending (sort_by-IsSortedBy _ _) ascending-AllSpans
