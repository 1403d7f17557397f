-- ===== src/Outcome/Simulation/Fill.antt =====
-- Where a limit entry fills.
use trade_gate.Prelude.{
  ℕ, suc, ◌+◌, ◌≡◌, refl, Bool, true, false, Option, none, some, List, [], ◌∷◌, arith, any, take,
  get_elem?, Bool-cases, inl, inr, if◌then◌else◌, subst, sym,
}
use trade_gate.Numbers.{Numbers}
use trade_gate.Klines.Bars.{Kline}
use trade_gate.Threads.Types.{Direction, limit}
use trade_gate.Outcome.Trade.{by_side}
use trade_gate.Outcome.Simulation.{touched, first_touch, find_fill}

module _ (N : Numbers) (direction : Direction) (lim : N.Number) where
  -- The price of a fill: the limit, or the open where that is better.
  abbrev pub fill_price : Kline → N.Number
  fill_price b =
      by_side N direction (N.least (N.of_text b.open_price) lim)
        (N.greatest (N.of_text b.open_price) lim)

  -- From the bar `i`, no bar touches the limit, or the first one that does is the one that fills.
  abbrev pub Fills : ℕ → List Kline → Option (ℕ × N.Number) → Type 0
  Fills i bars none = any (touched N direction lim) bars ≡ false
  Fills i bars (some (j, price)) =
      (n : ℕ) × (b : Kline) × (j ≡ i + n)
      × (get_elem? bars n ≡ some b)
      × (any (touched N direction lim) (take n bars) ≡ false)
      × (touched N direction lim b ≡ true)
      × (price ≡ fill_price b)

  Fills-behind :
      (i : ℕ) (b : Kline) (bars : List Kline) (r : Option (ℕ × N.Number))
      → touched N direction lim b ≡ false
      → Fills (suc i) bars r
      → Fills i (b ∷ bars) r
  Fills-behind i b bars none h f = ground arith
  Fills-behind i b bars (some (j, price)) h (n, c, e, at, before, t, p) =
      (suc n, c, omega arith, at, ground arith, t, p)

  abbrev fills_or : ℕ → Kline → List Kline → Bool → Option (ℕ × N.Number)
  fills_or i b bars t =
      if t then some (i, fill_price b) else first_touch N direction lim (suc i) bars

  first_touch-Fills :
      (i : ℕ) (bars : List Kline) → Fills i bars (first_touch N direction lim i bars)
  unfolding first_touch
  first_touch-Fills i [] = refl
  first_touch-Fills i (b ∷ bars) = elim (Bool-cases (touched N direction lim b)) [
    | inl h ↦
        subst (λ t. Fills i (b ∷ bars) (fills_or i b bars t)) (sym h)
          (0, b, omega arith, refl, refl, h, refl)
    | inr h ↦
        subst (λ t. Fills i (b ∷ bars) (fills_or i b bars t)) (sym h)
          (Fills-behind i b bars (first_touch N direction lim (suc i) bars) h
            (first_touch-Fills (suc i) bars))
  ]

  -- A limit entry fills at the first bar that touches the limit, at the limit or at the open where
  -- that is better, and does not fill only if no bar touches it.
  pub find_fill-Fills :
      (bars : List Kline) → Fills 0 bars (find_fill N direction limit (some lim) bars)
  unfolding find_fill
  find_fill-Fills [] = refl
  find_fill-Fills (b ∷ bars) = first_touch-Fills 0 (b ∷ bars)
