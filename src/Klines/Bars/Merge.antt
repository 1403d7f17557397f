-- ===== src/Klines/Bars/Merge.antt =====
-- `mergeBars` is the union of two series by open time, the second one winning.
use trade_gate.Prelude.{
  ℕ, ◌≡◌, refl, Option, none, some, List, [], ◌∷◌, arith, ◌==◌, nat_eq, if◌then◌else◌, find, All,
  find-sort_by, Increases, sort_by-Increases, HasUniqueKeysBy,
}
use trade_gate.Dict
use trade_gate.Klines.Bars.{Kline, set_bars, merge_bars}

-- The first bar of the series that opens at `t`.
abbrev pub bar_at : ℕ → List Kline → Option Kline
bar_at t = find (λ k. k.open_time == t)

-- The last one.
pub last_at : ℕ → List Kline → Option Kline
last_at t [] = none
last_at t (k ∷ bars) = elim (last_at t bars) [
  | some later ↦ some later
  | none ↦ if k.open_time == t then some k else none
]

abbrev pub or_else {ℓ} : {A : Type ℓ} → Option A → Option A → Option A
or_else (some a) o = some a
or_else none o = o

-- Every entry stands under its bar's open time.
abbrev IsKeyed : List (ℕ × Kline) → Type 0
IsKeyed = All (λ (e : ℕ × Kline). e.0 ≡ e.1.open_time)

set-IsKeyed : (k : Kline) (m : List (ℕ × Kline)) → IsKeyed m → IsKeyed (Dict.set k.open_time k m)
unfolding Dict.set
set-IsKeyed k [] h = (refl, tt)
set-IsKeyed k ((j, v) ∷ m) h = ground (arith, set-IsKeyed k m h.1)

set_bars-IsKeyed :
    (m : List (ℕ × Kline)) (bars : List Kline) → IsKeyed m → IsKeyed (set_bars m bars)
unfolding set_bars
set_bars-IsKeyed m [] h = h
set_bars-IsKeyed m (k ∷ bars) h =
    set_bars-IsKeyed (Dict.set k.open_time k m) bars (set-IsKeyed k m h)

get-set_bars :
    (t : ℕ) (m : List (ℕ × Kline)) (bars : List Kline)
    → Dict.get t (set_bars m bars) ≡ or_else (last_at t bars) (Dict.get t m)
unfolding set_bars last_at
get-set_bars t m [] = refl
get-set_bars t m (k ∷ bars) =
    ground (arith, get-set_bars t (Dict.set k.open_time k m) bars, Dict.get-set t k.open_time k m)

bar_at-values : (t : ℕ) (m : List (ℕ × Kline)) → IsKeyed m → bar_at t (Dict.values m) ≡ Dict.get t m
unfolding Dict.get
bar_at-values t [] h = refl
bar_at-values t ((j, v) ∷ m) h = ground (arith, bar_at-values t m h.1)

abbrev by_time : Kline → ℕ
by_time k = k.open_time

get_nil : (t : ℕ) → Dict.get {V = Kline} t [] ≡ none
unfolding Dict.get
get_nil t = refl

-- At every open time the union has the last such bar of `b`, or else the last such bar of `a`.
pub bar_at-merge_bars :
    (t : ℕ) (a b : List Kline) → bar_at t (merge_bars a b) ≡ or_else (last_at t b) (last_at t a)
unfolding merge_bars
bar_at-merge_bars t a b =
    let m = set_bars [] a in
    let n = set_bars m b in
    ground (
      arith,
      find-sort_by by_time t (Dict.values n),
      bar_at-values t n (set_bars-IsKeyed m b (set_bars-IsKeyed [] a tt)),
      get-set_bars t m b,
      get-set_bars t [] a,
      get_nil t,
    )

set_bars-HasUniqueKeys :
    (m : List (ℕ × Kline)) (bars : List Kline)
    → Dict.HasUniqueKeys m
    → Dict.HasUniqueKeys (set_bars m bars)
unfolding set_bars
set_bars-HasUniqueKeys m [] h = h
set_bars-HasUniqueKeys m (k ∷ bars) h =
    set_bars-HasUniqueKeys (Dict.set k.open_time k m) bars
      (Dict.set-HasUniqueKeys k.open_time k m h)

values-HasUniqueKeysBy :
    (m : List (ℕ × Kline))
    → IsKeyed m
    → Dict.HasUniqueKeys m
    → HasUniqueKeysBy by_time (Dict.values m)
values-HasUniqueKeysBy [] h u = tt
values-HasUniqueKeysBy ((j, v) ∷ m) h u =
    ground (arith, bar_at-values v.open_time m h.1, values-HasUniqueKeysBy m h.1 u.1)

-- The union ascends strictly by open time.
pub merge_bars-Increases : (a b : List Kline) → Increases by_time (merge_bars a b)
unfolding merge_bars
merge_bars-Increases a b =
    let m = set_bars [] a in
    sort_by-Increases by_time _ (
      values-HasUniqueKeysBy (set_bars m b) (set_bars-IsKeyed m b (set_bars-IsKeyed [] a tt))
        (set_bars-HasUniqueKeys m b (set_bars-HasUniqueKeys [] a tt)))
