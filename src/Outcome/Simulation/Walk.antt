-- ===== src/Outcome/Simulation/Walk.antt =====
-- When the walk over the bars leaves a trade.
use trade_gate.Prelude.{
  ℕ, suc, ◌+◌, ◌≡◌, refl, ap, sym, subst, Bool, true, false, ◌||◌, Option, none, some, List, [],
  ◌∷◌, arith, any, take, length, get_elem?, Option-cases, inl, inr, if◌then◌else◌,
}
use trade_gate.Numbers.{Numbers}
use trade_gate.Klines.Bars.{Kline}
use trade_gate.Outcome.Trade.{
  stop, tp, OpenTrade, Exit, hit_stop, hit_tp, exit_of, stop_exit, tp_exit, step_trade,
}
use trade_gate.Outcome.Simulation.{walk}

module _ (N : Numbers) where
  -- The bar touches the stop or the take-profit.
  abbrev pub touches : OpenTrade N → Kline → Bool
  touches t b = hit_stop N t b || hit_tp N t b

  -- The first of the bars that touches a level is the one at `n`; at it the stop goes first.
  pub record ExitsAt (t : OpenTrade N) (bars : List Kline) (n : ℕ) (x : Exit N) : Type 0 where
    pub bar : Kline
    pub at_n : get_elem? bars n ≡ some bar
    pub before : any (touches t) (take n bars) ≡ false
    pub touched : touches t bar ≡ true
    pub status : x.status ≡ (if hit_stop N t bar then stop else tp)

  exit_of-none : (t : OpenTrade N) (b : Kline) → exit_of N t b ≡ none → touches t b ≡ false
  unfolding exit_of hit_tp
  exit_of-none t b h = ground arith

  exit_of-some :
      (t : OpenTrade N) (b : Kline) (x : Exit N)
      → exit_of N t b ≡ some x
      → (touches t b ≡ true) × (x.status ≡ (if hit_stop N t b then stop else tp))
  unfolding exit_of hit_tp stop_exit tp_exit
  exit_of-some t b x h = ground arith

  -- The trade behind a bar.
  abbrev behind : OpenTrade N → Kline → OpenTrade N
  behind t b = (step_trade N t b).0

  abbrev go_on : OpenTrade N → ℕ → List Kline → Option (Exit N) → OpenTrade N × Option (ℕ × Exit N)
  go_on t i bars none = walk N t (suc i) bars
  go_on t i bars (some exit) = (t, some (i, exit))

  walk-cons :
      (t : OpenTrade N) (i : ℕ) (b : Kline) (bars : List Kline) (o : Option (Exit N))
      → exit_of N t b ≡ o
      → walk N t i (b ∷ bars) ≡ go_on (behind t b) i bars o
  unfolding walk step_trade
  walk-cons t i b bars o e = ap (go_on (behind t b) i bars) e

  -- How the walk from the bar `i` leaves the trade. Open: no bar touches a level, and all of them
  -- were held. Left at the bar `j`: it is the first bar that touches a level, the stop goes before
  -- the take-profit, and the bars held are those up to it.
  abbrev pub Leaves : OpenTrade N → ℕ → List Kline → OpenTrade N × Option (ℕ × Exit N) → Type 0
  Leaves t i bars (u, none) =
      (any (touches t) bars ≡ false) × (u.bars_held ≡ t.bars_held + length bars)
  Leaves t i bars (u, some (j, x)) =
      (n : ℕ) × (j ≡ i + n) × ExitsAt t bars n x × (u.bars_held ≡ t.bars_held + suc n)

  Leaves-behind :
      (t : OpenTrade N) (i : ℕ) (b : Kline) (bars : List Kline)
      (r : OpenTrade N × Option (ℕ × Exit N))
      → touches t b ≡ false
      → Leaves (behind t b) (suc i) bars r
      → Leaves t i (b ∷ bars) r
  unfolding step_trade hit_stop hit_tp
  Leaves-behind t i b bars (u, none) h (a, l) = (ground arith, omega arith)
  Leaves-behind t i b bars (u, some (j, x)) h (n, e, a, l) = (
    suc n,
    omega arith,
    record {
      bar = a.bar;
      at_n = a.at_n;
      before = ground (arith, a.before);
      touched = a.touched;
      status = a.status;
    },
    omega arith,
  )

  stops_here :
      (t : OpenTrade N) (i : ℕ) (b : Kline) (bars : List Kline) (x : Exit N)
      → exit_of N t b ≡ some x
      → Leaves t i (b ∷ bars) (behind t b, some (i, x))
  unfolding step_trade
  stops_here t i b bars x e =
      let (p, q) = exit_of-some t b x e in
      (
        0,
        omega arith,
        record { bar = b; at_n = refl; before = refl; touched = p; status = q },
        omega arith,
      )

  nil-Leaves : (t : OpenTrade N) (i : ℕ) → Leaves t i [] (walk N t i [])
  unfolding walk
  nil-Leaves t i = (refl, omega arith)

  -- A walk over bars that ends with the trade open met no bar that touches a level, and counts all
  -- of them as held; one that leaves the trade leaves it at the first bar that touches a level, by
  -- the stop where the bar touches both, and counts the bars up to it as held.
  pub walk-Leaves :
      (t : OpenTrade N) (i : ℕ) (bars : List Kline) → Leaves t i bars (walk N t i bars)
  walk-Leaves t i [] = nil-Leaves t i
  walk-Leaves t i (b ∷ bars) = elim (Option-cases (exit_of N t b)) [
    | inl e ↦ subst (Leaves t i (b ∷ bars)) (sym (walk-cons t i b bars none e)) (
        Leaves-behind t i b bars (walk N (behind t b) (suc i) bars) (exit_of-none t b e)
          (walk-Leaves (behind t b) (suc i) bars))
    | inr (x, e) ↦
        subst (Leaves t i (b ∷ bars)) (sym (walk-cons t i b bars (some x) e))
          (stops_here t i b bars x e)
  ]
