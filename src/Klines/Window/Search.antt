-- ===== src/Klines/Window/Search.antt =====
-- The binary search finds the last closed bar of an ascending series.
use trade_gate.Prelude.{
  ℕ, zero, suc, ◌+◌, ◌-◌, ◌/◌, ◌≤◌, ◌<◌, ◌≡◌, refl, Bool, Option, none, some, inl, inr, List, [],
  ◌∷◌, arith, ltb, leb, Bool-cases, length, take, drop, get_elem?, length-take, drop_nil, filter,
  All, IsSortedBy,
}
use trade_gate.Klines.Bars.{Kline}
use trade_gate.Klines.Window.{closed_loop, last_closed_index, window_to, visible_window}

abbrev pub Ascends : List Kline → Type 0
Ascends = IsSortedBy (λ k. k.close_time)

abbrev pub closed_by : ℕ → Kline → Bool
closed_by t k = leb k.close_time t

-- The first `n` bars are closed at `t`, and no other is.
pub record Splits (bars : List Kline) (t n : ℕ) : Type 0 where
  pub within : n ≤ length bars
  pub closed : (i : ℕ) (k : Kline) → i < n → get_elem? bars i ≡ some k → k.close_time ≤ t
  pub open_after : (i : ℕ) (k : Kline) → n ≤ i → get_elem? bars i ≡ some k → t < k.close_time

-- The index before `n`; `none` stands for -1.
abbrev pub before : ℕ → Option ℕ
before zero = none
before (suc n) = some n

All-get_elem? :
    (m : ℕ) (bars : List Kline) (i : ℕ) (k : Kline)
    → All (λ y. m ≤ y.close_time) bars
    → get_elem? bars i ≡ some k
    → m ≤ k.close_time
All-get_elem? m [] i k a e = absurd (ground arith)
All-get_elem? m (x ∷ bars) zero k a e = ground arith
All-get_elem? m (x ∷ bars) (suc i) k a e = All-get_elem? m bars i k a.1 e

Ascends-get_elem? :
    (bars : List Kline) (i j : ℕ) (a b : Kline)
    → Ascends bars
    → i ≤ j
    → get_elem? bars i ≡ some a
    → get_elem? bars j ≡ some b
    → a.close_time ≤ b.close_time
Ascends-get_elem? [] i j a b s h p q = absurd (ground arith)
Ascends-get_elem? (x ∷ bars) zero zero a b s h p q = ground arith
Ascends-get_elem? (x ∷ bars) zero (suc j) a b s h p q =
    ground (arith, All-get_elem? x.close_time bars j b s.0)
Ascends-get_elem? (x ∷ bars) (suc i) zero a b s h p q = absurd (omega arith)
Ascends-get_elem? (x ∷ bars) (suc i) (suc j) a b s h p q =
    Ascends-get_elem? bars i j a b s.1 (omega arith) p q

pub get_elem?-some {ℓ} :
    {A : Type ℓ} (xs : List A) (i : ℕ) → i < length xs → (x : A) × (get_elem? xs i ≡ some x)
get_elem?-some [] i h = absurd (omega arith)
get_elem?-some (x ∷ xs) zero h = (x, refl)
get_elem?-some (x ∷ xs) (suc i) h = get_elem?-some xs i (omega arith)

pub get_elem?-lt {ℓ} :
    {A : Type ℓ} (xs : List A) (i : ℕ) (x : A) → get_elem? xs i ≡ some x → i < length xs
get_elem?-lt [] i x h = absurd (ground arith)
get_elem?-lt (y ∷ xs) zero x h = omega arith
get_elem?-lt (y ∷ xs) (suc i) x h = omega (arith, get_elem?-lt xs i x h)

before_next : (n : ℕ) → some n ≡ before (n + 1)
before_next n = ground arith

abbrev Found : List Kline → ℕ → Option ℕ → Type 0
Found bars t r = (n : ℕ) × (r ≡ before n) × Splits bars t n

module _ (bars : List Kline) (t : ℕ) (s : Ascends bars) where
  abbrev ClosedBelow : ℕ → Type 0
  ClosedBelow n = (i : ℕ) (k : Kline) → i < n → get_elem? bars i ≡ some k → k.close_time ≤ t

  abbrev OpenFrom : ℕ → Type 0
  OpenFrom n = (i : ℕ) (k : Kline) → n ≤ i → get_elem? bars i ≡ some k → t < k.close_time

  closed_to :
      (mid : ℕ) (m : Kline) → get_elem? bars mid ≡ some m → m.close_time ≤ t → ClosedBelow (mid + 1)
  closed_to mid m hit old i k h e =
      omega (arith, Ascends-get_elem? bars i mid k m s (omega arith) e hit)

  open_from : (mid : ℕ) (m : Kline) → get_elem? bars mid ≡ some m → t < m.close_time → OpenFrom mid
  open_from mid m hit young i k h e = omega (arith, Ascends-get_elem? bars mid i m k s h hit e)

  none_beyond : OpenFrom (length bars)
  none_beyond i k h e = absurd (ground (arith, get_elem?-lt bars i k e))

  closed_loop-Found :
      (fuel lo end : ℕ) (ans : Option ℕ)
      → lo ≤ end
      → end ≤ length bars
      → end ≤ lo + fuel
      → ClosedBelow lo
      → OpenFrom end
      → ans ≡ before lo
      → Found bars t (closed_loop fuel bars t lo end ans)
  unfolding closed_loop
  closed_loop-Found zero lo end ans a b c d e f = (
    lo,
    f,
    record { within = omega arith; closed = d; open_after = λ i k h. e i k (omega arith) },
  )
  closed_loop-Found (suc fuel) lo end ans a b c d e f = elim (Bool-cases (ltb lo end)) [
    | inr stop ↦ rw stop (
      lo,
      f,
      record { within = omega arith; closed = d; open_after = λ i k h. e i k (ground arith) },
    )
    | inl more ↦
        let mid = (lo + (end - 1)) / 2 in
        let (k, hit) = get_elem?-some bars mid (ground arith) in
        rw (more, hit)
          (elim (Bool-cases (leb k.close_time t)) [
            | inl old ↦ rw old (
                closed_loop-Found fuel (mid + 1) end (some mid) (ground arith) b (ground arith)
                  (closed_to mid k hit (ground arith)) e (before_next mid))
            | inr young ↦ rw young (
                closed_loop-Found fuel lo mid ans (ground arith) (ground arith) (ground arith) d
                  (open_from mid k hit (ground arith)) f)
          ])
  ]

  last_closed_index-Found : Found bars t (last_closed_index bars t)
  unfolding last_closed_index
  last_closed_index-Found =
      closed_loop-Found (length bars) 0 (length bars) none (omega arith) (omega arith) (omega arith)
        (λ i k h e. absurd (omega arith)) none_beyond refl

take_of_splits :
    (t n : ℕ) (bars : List Kline)
    → n ≤ length bars
    → ((i : ℕ) (k : Kline) → i < n → get_elem? bars i ≡ some k → k.close_time ≤ t)
    → ((i : ℕ) (k : Kline) → n ≤ i → get_elem? bars i ≡ some k → t < k.close_time)
    → take n bars ≡ filter (closed_by t) bars
take_of_splits t zero [] h c o = refl
take_of_splits t (suc n) [] h c o = absurd (omega arith)
take_of_splits t zero (x ∷ bars) h c o =
    let rest =
      take_of_splits t zero bars (omega arith) (λ i k a e. absurd (omega arith))
        (λ i k a e. o (suc i) k (omega arith) e) in
    ground (arith, o 0 x (omega arith) refl, rest)
take_of_splits t (suc n) (x ∷ bars) h c o =
    let rest =
      take_of_splits t n bars (omega arith) (λ i k a e. c (suc i) k (omega arith) e)
        (λ i k a e. o (suc i) k (omega arith) e) in
    ground (arith, c 0 x (omega arith) refl, rest)

-- The last `count` elements.
abbrev pub last_of {ℓ} : {A : Type ℓ} → ℕ → List A → List A
last_of count xs = drop (length xs - count) xs

window_at :
    (bars : List Kline) (t count n : ℕ) (r : Option ℕ)
    → r ≡ before n
    → n ≤ length bars
    → take n bars ≡ filter (closed_by t) bars
    → window_to bars count r ≡ last_of count (filter (closed_by t) bars)
unfolding window_to
window_at bars t count zero r e h f = rw (e, ← f) (ground (arith, drop_nil {A = Kline} (0 - count)))
window_at bars t count (suc n) r e h f = rw (e, ← f) (ground (arith, length-take (suc n) bars))

module _ (bars : List Kline) (t : ℕ) (s : Ascends bars) where
  -- On bars that ascend by close time the search returns the index of the last closed one: it is
  -- the index before `n`, where the first `n` bars are closed at `t` and no other bar is.
  pub last_closed_index-Splits : (n : ℕ) × (last_closed_index bars t ≡ before n) × Splits bars t n
  last_closed_index-Splits = last_closed_index-Found bars t s

  -- On bars that ascend by close time the window is the last `count` of those that are closed at
  -- `t`: no later bar is in it.
  pub visible_window-eq-last_of :
      (count : ℕ) → visible_window bars t count ≡ last_of count (filter (closed_by t) bars)
  unfolding visible_window
  visible_window-eq-last_of count =
      let (n, e, w) = last_closed_index-Splits in
      window_at bars t count n (last_closed_index bars t) e w.within
        (take_of_splits t n bars w.within w.closed w.open_after)
