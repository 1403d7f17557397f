-- ===== src/Paper/Invariant.antt =====
-- Every call of the backend keeps its state well-formed.
use trade_gate.Prelude.{
  refl, none, some, String, List, [], ◌∷◌, arith, find, ◌==◌, string_eq, nat_eq, Option-cases,
  Bool-cases, inl, inr,
}
use trade_gate.Dict
use trade_gate.Numbers.{Numbers}
use trade_gate.Threads.Types.{EntryType, market, limit, direction_eq}
use trade_gate.Paper.Types.{stop_market, take_profit_market, canceled_view, Paper, new_paper}
use trade_gate.Paper.Fills.{mark}
use trade_gate.Paper.Orders.{
  EntryRequest, set_leverage, leverage_of, place_limit, fill_now, place_entry, place_stop,
  place_take_profit, close_position, reduce_position, cancel_all, cancel_order, is_order, place_as,
  limit_entry, protective_order,
}
use trade_gate.Paper.Steps.{
  PaperCall, marks, leverages, enters, stops, takes, closes, reduces, cancels_all, cancels, ticks,
  paper_step, paper_run,
}
use trade_gate.Paper.Valid.{IsValid}
use trade_gate.Paper.Kept.{
  retire-IsValid, close_at-IsValid, fill-IsValid, settle-IsValid, push-IsValid, set_mark-IsValid,
  tick-IsValid,
}

module _ (N : Numbers) where
  open N use {Number, of_text, le, sub, mul, lt, to_text}

  place_limit-IsValid :
      (req : EntryRequest) (m : Number) (s : Paper N)
      → IsValid N s
      → IsValid N (place_limit N req m s).0
  unfolding place_limit fill_now
  place_limit-IsValid req m s v = ground (
    arith,
    fill-IsValid N req.symbol req.direction (of_text req.qty) m (leverage_of N req.symbol s) s v,
    push-IsValid N (limit_entry req) s refl v,
  )

  place_as-IsValid :
      (entry : EntryType) (req : EntryRequest) (m : Number) (s : Paper N)
      → IsValid N s
      → IsValid N (place_as N entry req m s).0
  unfolding place_as fill_now
  place_as-IsValid market req m s v =
      fill-IsValid N req.symbol req.direction (of_text req.qty) m (leverage_of N req.symbol s) s v
  place_as-IsValid limit req m s v = place_limit-IsValid req m s v

  place_entry-IsValid :
      (req : EntryRequest) (s : Paper N) → IsValid N s → IsValid N (place_entry N req s).0
  unfolding place_entry
  place_entry-IsValid req s v = elim (Bool-cases (lt (of_text "0") (mark N req.symbol s))) [
    | inl e ↦ rw (place_entry, e) (place_as-IsValid req.entry req (mark N req.symbol s) s v)
    | inr e ↦ rw (place_entry, e) v
  ]

  close_position-IsValid :
      (symbol : String) (s : Paper N) → IsValid N s → IsValid N (close_position N symbol s).0
  unfolding close_position
  close_position-IsValid symbol s v = elim (Option-cases (Dict.get symbol s.positions)) [
    | inl e ↦ rw (e, close_position) v
    | inr (p, e) ↦ rw (e, close_position) (close_at-IsValid N symbol (mark N symbol s) none s v)
  ]

  reduce_position-IsValid :
      (symbol qty : String) (s : Paper N)
      → IsValid N s
      → IsValid N (reduce_position N symbol qty s).0
  unfolding reduce_position
  reduce_position-IsValid symbol qty s v = elim (Option-cases (Dict.get symbol s.positions)) [
    | inl e ↦ rw (e, reduce_position) v
    | inr (p, e) ↦
        rw (e, reduce_position)
          (close_at-IsValid N symbol (mark N symbol s) (some (of_text qty)) s v)
  ]

  cancel_order-IsValid :
      (symbol id : String) (s : Paper N) → IsValid N s → IsValid N (cancel_order N symbol id s).0
  unfolding cancel_order
  cancel_order-IsValid symbol id s v = elim (Option-cases (find (is_order symbol id) s.orders)) [
    | inl e ↦ rw (e, cancel_order) v
    | inr (found, e) ↦ rw (e, cancel_order) (settle-IsValid N found.0 id canceled_view s v)
  ]

  pub paper_step-IsValid :
      (s : Paper N) (c : PaperCall) → IsValid N s → IsValid N (paper_step N s c)
  unfolding paper_step cancel_all place_stop place_take_profit set_leverage
  paper_step-IsValid s (marks symbol price) v = set_mark-IsValid N symbol price s v
  paper_step-IsValid s (leverages symbol leverage) (vp, vo, vc, vm, vl) =
      (vp, vo, vc, vm, Dict.set-HasUniqueKeys symbol leverage s.leverages vl)
  paper_step-IsValid s (enters req) v = place_entry-IsValid req s v
  paper_step-IsValid s (stops symbol position price id) v =
      push-IsValid N (protective_order symbol position price id stop_market) s refl v
  paper_step-IsValid s (takes symbol position price id) v =
      push-IsValid N (protective_order symbol position price id take_profit_market) s refl v
  paper_step-IsValid s (closes symbol) v = close_position-IsValid symbol s v
  paper_step-IsValid s (reduces symbol qty) v = reduce_position-IsValid symbol qty s v
  paper_step-IsValid s (cancels_all symbol) v = retire-IsValid N (λ o. o.symbol == symbol) s v
  paper_step-IsValid s (cancels symbol id) v = cancel_order-IsValid symbol id s v
  paper_step-IsValid s (ticks symbol price) v = tick-IsValid N symbol price s v

  pub new_paper-IsValid : (equity : Number) → IsValid N (new_paper N equity)
  new_paper-IsValid equity = ((tt, tt), (tt, tt), tt, tt, tt)

  -- Whatever the calls and in whatever order, the backend's maps hold no key twice, a position
  -- stands under its own symbol, the open orders are distinct objects, and none of them is a limit
  -- order that only reduces, if all of this held at the start.
  pub paper_run-IsValid :
      (s : Paper N) (calls : List PaperCall) → IsValid N s → IsValid N (paper_run N s calls)
  unfolding paper_run
  paper_run-IsValid s [] v = v
  paper_run-IsValid s (c ∷ calls) v =
      paper_run-IsValid (paper_step N s c) calls (paper_step-IsValid s c v)
