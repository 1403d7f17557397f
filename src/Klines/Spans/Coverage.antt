-- ===== src/Klines/Spans/Coverage.antt =====
-- The moments that a list of spans covers, and the lists that merging returns.
use trade_gate.Prelude.{ℕ, ◌+◌, ◌≤◌, ◌<◌, ◌≡◌, Bool, ◌&&◌, List, [], ◌∷◌, arith, leb, any, filter}
use trade_gate.Klines.Spans.{Span, is_span}

abbrev pub in_span : ℕ → Span → Bool
in_span x s = leb s.from x && leb x s.to

-- Some span of the list holds the moment `x`.
abbrev pub covers : ℕ → List Span → Bool
covers x = any (in_span x)

-- Each span is nonempty, starts at `n` or later, and leaves a moment free before the next one.
abbrev pub SeparatedFrom : ℕ → List Span → Type 0
SeparatedFrom n [] = Unit
SeparatedFrom n (s ∷ rest) = (n ≤ s.from) × (s.from ≤ s.to) × SeparatedFrom (s.to + 2) rest

abbrev pub IsSeparated : List Span → Type 0
IsSeparated = SeparatedFrom 0

pub SeparatedFrom-mono : (m n : ℕ) (l : List Span) → m ≤ n → SeparatedFrom n l → SeparatedFrom m l
SeparatedFrom-mono m n [] h s = tt
SeparatedFrom-mono m n (x ∷ l) h s = (omega arith, s.1, s.2)

pub covers_below : (x n : ℕ) (l : List Span) → SeparatedFrom n l → x < n → covers x l ≡ Bool.false
covers_below x n [] s h = ground arith
covers_below x n (y ∷ l) s h = ground (arith, covers_below x (y.to + 2) l s.2)

-- An empty span covers nothing.
pub covers-filter : (x : ℕ) (l : List Span) → covers x (filter is_span l) ≡ covers x l
covers-filter x [] = ground arith
covers-filter x (s ∷ l) = ground (arith, covers-filter x l)
