-- ===== src/Klines/Spans/Canonical.antt =====
-- A separated list is the only one that covers what it covers, so merging is a normal form.
use trade_gate.Prelude.{ℕ, ◌+◌, ◌≤◌, ◌≡◌, refl, sym, ◌∙◌, List, [], ◌∷◌, arith}
use trade_gate.Klines.Spans.{Span, merge_spans}
use trade_gate.Klines.Spans.Coverage.{covers, SeparatedFrom, IsSeparated, covers_below}
use trade_gate.Klines.Spans.Merge.{covers-merge_spans, merge_spans-IsSeparated}

abbrev SameCover : List Span → List Span → Type 0
SameCover a b = (x : ℕ) → covers x a ≡ covers x b

module _ (n m : ℕ) (s t : Span) (a b : List Span) (p : SeparatedFrom n (s ∷ a))
    (q : SeparatedFrom m (t ∷ b)) (e : SameCover (s ∷ a) (t ∷ b)) where
  from_le : t.from ≤ s.from
  from_le = ground (arith, e s.from, covers_below s.from (t.to + 2) b q.2)

  to_le : s.from ≡ t.from → t.to ≤ s.to
  to_le h = ground (arith, e (s.to + 1), covers_below (s.to + 1) (s.to + 2) a p.2)

  tail_cover : s.from ≡ t.from → s.to ≡ t.to → SameCover a b
  tail_cover h k x =
      ground (arith, e x, covers_below x (s.to + 2) a p.2, covers_below x (t.to + 2) b q.2)

module _ (n m : ℕ) (s t : Span) (a b : List Span) (p : SeparatedFrom n (s ∷ a))
    (q : SeparatedFrom m (t ∷ b)) (e : SameCover (s ∷ a) (t ∷ b)) where
  heads_start : s.from ≡ t.from
  heads_start = omega (arith, from_le n m s t a b p q e, from_le m n t s b a q p (λ x. sym (e x)))

  heads_end : s.to ≡ t.to
  heads_end = omega (
    arith,
    to_le n m s t a b p q e heads_start,
    to_le m n t s b a q p (λ x. sym (e x)) (sym heads_start),
  )

SeparatedFrom-eq :
    (n m : ℕ) (a b : List Span) → SeparatedFrom n a → SeparatedFrom m b → SameCover a b → a ≡ b
SeparatedFrom-eq n m [] [] p q e = refl
SeparatedFrom-eq n m [] (t ∷ b) p q e = absurd (ground (arith, e t.from))
SeparatedFrom-eq n m (s ∷ a) [] p q e = absurd (ground (arith, e s.from))
SeparatedFrom-eq n m (s ∷ a) (t ∷ b) p q e =
    let starts = heads_start n m s t a b p q e in
    let ends = heads_end n m s t a b p q e in
    ground (
      arith,
      starts,
      ends,
      SeparatedFrom-eq (s.to + 2) (t.to + 2) a b p.2 q.2 (tail_cover n m s t a b p q e starts ends),
    )

-- Lists of spans that cover the same moments merge to the same list.
pub merge_spans_canonical : (a b : List Span) → SameCover a b → merge_spans a ≡ merge_spans b
merge_spans_canonical a b e =
    SeparatedFrom-eq 0 0 (merge_spans a) (merge_spans b) (merge_spans-IsSeparated a)
      (merge_spans-IsSeparated b) λ x. covers-merge_spans a x ∙ e x ∙ sym (covers-merge_spans b x)

-- A separated list is its own merge.
pub merge_spans_of_IsSeparated : (a : List Span) → IsSeparated a → merge_spans a ≡ a
merge_spans_of_IsSeparated a s =
    SeparatedFrom-eq 0 0 (merge_spans a) a (merge_spans-IsSeparated a) s (covers-merge_spans a)
