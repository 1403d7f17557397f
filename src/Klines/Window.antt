-- ===== src/Klines/Window.antt =====
-- The bars that a judgment at time `t` may see: `lastClosedIndex` and `visibleWindow` of klines.ts.
pub mod Search
use trade_gate.Prelude.{
  ℕ, zero, suc, ◌+◌, ◌-◌, ◌/◌, Option, none, some, List, [], ltb, leb, if◌then◌else◌, length, take,
  drop, get_elem?,
}
use trade_gate.Klines.Bars.{Kline}

-- The `while` of `lastClosedIndex`, with `end` for `hi + 1`, so that an empty range is `lo = end`;
-- `none` stands for the index -1. Where the index is in range `bars[mid]!` is the bar.
unfoldable pub closed_loop : ℕ → List Kline → ℕ → ℕ → ℕ → Option ℕ → Option ℕ
closed_loop zero bars t lo end ans = ans
closed_loop (suc fuel) bars t lo end ans =
    let mid = (lo + (end - 1)) / 2 in
    let right = closed_loop fuel bars t (mid + 1) end (some mid) in
    let left = closed_loop fuel bars t lo mid ans in
    if ltb lo end
    then elim (get_elem? bars mid) [
      | none ↦ left
      | some bar ↦ if leb bar.close_time t then right else left
    ]
    else ans

-- Each round shortens the range, so the number of bars is fuel enough.
unfoldable pub last_closed_index : List Kline → ℕ → Option ℕ
unfolding closed_loop
last_closed_index bars t = closed_loop (length bars) bars t 0 (length bars) none

-- `bars.slice(from, to)` for indices that are not negative.
abbrev pub slice : List Kline → ℕ → ℕ → List Kline
slice bars from to = drop from (take to bars)

-- The rest of `visibleWindow` behind the search. `Math.max(0, end - count + 1)` is
-- `end + 1 - count`, since `-` stops at 0.
unfoldable pub window_to : List Kline → ℕ → Option ℕ → List Kline
window_to bars count none = []
window_to bars count (some end) = slice bars (end + 1 - count) (end + 1)

unfoldable pub visible_window : List Kline → ℕ → ℕ → List Kline
unfolding last_closed_index window_to
visible_window bars t count = window_to bars count (last_closed_index bars t)
