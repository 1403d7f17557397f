-- ===== src/Paper/Kept.antt =====
-- Fills, closes and ticks keep the state of the backend well-formed.
use trade_gate.Prelude.{
  ℕ, ◌≡◌, refl, Bool, false, ◌&&◌, Option, none, some, String, [], ◌∷◌, find, filter, ◌==◌,
  string_eq, nat_eq, Option-cases, Bool-cases, inl, inr,
}
use trade_gate.Dict
use trade_gate.Numbers.{Numbers}
use trade_gate.Threads.Types.{Direction, direction_eq}
use trade_gate.Threads.Facts.{OrderStatusView}
use trade_gate.Paper.Types.{
  fee_rate, PaperOrder, is_limit_order, Orders, PaperPosition, Paper, number_of,
}
use trade_gate.Paper.Fills.{
  retire, close_part, part_of, close_at, enlarge, fill_existing, fill, protects,
}
use trade_gate.Paper.Orders.{set_mark, leverage_of, push, settle, crosses}
use trade_gate.Paper.Tick.{
  fill_resting, fill_entries, is_hit, trigger, check_protection, after_entries, tick, is_resting,
  filled_view,
}
use trade_gate.Paper.Valid.{
  keep_others-AreOrders, remove-AreOrders, push-AreOrders, cancel_where-HasUniqueKeys, IsValid,
  get-IsUnder, set-ArePositions, remove-ArePositions,
}

module _ (N : Numbers) where
  open N use {Number, of_text, le, sub, mul, lt, to_text}

  pub retire-IsValid :
      (p : PaperOrder → Bool) (s : Paper N) → IsValid N s → IsValid N (retire N p s)
  unfolding retire
  retire-IsValid p s (vp, vo, vc, vm, vl) = (
    vp,
    keep_others-AreOrders s.next_object p s.orders vo,
    cancel_where-HasUniqueKeys p s.orders s.closed vc,
    vm,
    vl,
  )

  set-IsValid :
      (symbol : String) (p : PaperPosition N) (s : Paper N)
      → p.symbol ≡ symbol
      → IsValid N s
      → IsValid N (record s { positions = Dict.set symbol p s.positions })
  set-IsValid symbol p s e (vp, vo, vc, vm, vl) =
      (set-ArePositions N symbol p s.positions e vp, vo, vc, vm, vl)

  close_part-IsValid :
      (symbol : String) (price : Number) (p : PaperPosition N) (q : Number) (s : Paper N)
      → Dict.get symbol s.positions ≡ some p
      → IsValid N s
      → IsValid N (close_part N symbol price p q s)
  unfolding close_part
  close_part-IsValid symbol price p q s g (vp, vo, vc, vm, vl) =
      elim (Bool-cases (le (sub p.qty (of_text "1e-12")) q)) [
        | inl e ↦ rw e (
            retire-IsValid (protects symbol)
              (record s { positions = Dict.remove symbol s.positions })
              (remove-ArePositions N symbol s.positions vp, vo, vc, vm, vl))
        | inr e ↦ rw e (
            set-IsValid symbol (record p { qty = sub p.qty q }) s
              (get-IsUnder N symbol p s.positions vp.0 g) (vp, vo, vc, vm, vl))
      ]

  pub close_at-IsValid :
      (symbol : String) (price : Number) (qty : Option Number) (s : Paper N)
      → IsValid N s
      → IsValid N (close_at N symbol price qty s).0
  unfolding close_at
  close_at-IsValid symbol price qty s v = elim (Option-cases (Dict.get symbol s.positions)) [
    | inl e ↦ rw (e, close_at) v
    | inr (p, e) ↦ rw (e, close_at) (close_part-IsValid symbol price p (part_of N p qty) s e v)
  ]

  fill_existing-IsValid :
      (symbol : String) (side : Direction) (qty price : Number) (p : PaperPosition N) (s : Paper N)
      → Dict.get symbol s.positions ≡ some p
      → IsValid N s
      → IsValid N (fill_existing N symbol side qty price p s)
  unfolding fill_existing enlarge
  fill_existing-IsValid symbol side qty price p s g v = elim (Bool-cases (p.side == side)) [
    | inl e ↦ rw e (
        set-IsValid symbol (enlarge N p qty price) s (get-IsUnder N symbol p s.positions v.0.0 g) v)
    | inr e ↦ rw e (close_at-IsValid symbol price (some qty) s v)
  ]

  pub fill-IsValid :
      (symbol : String) (side : Direction) (qty price : Number) (leverage : ℕ) (s : Paper N)
      → IsValid N s
      → IsValid N (fill N symbol side qty price leverage s)
  unfolding fill
  fill-IsValid symbol side qty price leverage s v =
      elim (Option-cases (Dict.get symbol s.positions)) [
        | inl e ↦
            rw (e, fill)
              (set-IsValid symbol
                (record {
                  symbol = symbol;
                  side = side;
                  qty = qty;
                  entry_price = price;
                  leverage = leverage;
                })
                s refl v)
        | inr (p, e) ↦
            rw (e, fill)
              (fill_existing-IsValid symbol side qty price p
                (record s { wallet = sub s.wallet (mul (mul price qty) (fee_rate N)) }) e v)
      ]

  pub settle-IsValid :
      (r : ℕ) (id : String) (w : OrderStatusView) (s : Paper N)
      → IsValid N s
      → IsValid N (settle N r id w s)
  unfolding settle
  settle-IsValid r id w s (vp, vo, vc, vm, vl) = (
    vp,
    remove-AreOrders s.next_object r s.orders vo,
    Dict.set-HasUniqueKeys id w s.closed vc,
    vm,
    vl,
  )

  pub push-IsValid :
      (o : PaperOrder) (s : Paper N)
      → (is_limit_order o.type && o.reduce_only) ≡ false
      → IsValid N s
      → IsValid N (push N o s)
  unfolding push
  push-IsValid o s h (vp, vo, vc, vm, vl) =
      (vp, push-AreOrders s.next_object o s.orders h vo, vc, vm, vl)

  pub fill_resting-IsValid :
      (symbol : String) (r : ℕ) (o : PaperOrder) (s : Paper N)
      → IsValid N s
      → IsValid N (fill_resting N symbol r o s)
  unfolding fill_resting
  fill_resting-IsValid symbol r o s v =
      let price = number_of N o.price in
      settle-IsValid r o.client_order_id (filled_view (to_text price) o.qty)
        (fill N symbol o.position_side (of_text o.qty) price (leverage_of N symbol s) s)
        (fill-IsValid symbol o.position_side (of_text o.qty) price (leverage_of N symbol s) s v)

  pub fill_entries-IsValid :
      (symbol : String) (m : Number) (resting : Orders) (s : Paper N)
      → IsValid N s
      → IsValid N (fill_entries N symbol m resting s).0
  unfolding fill_entries
  fill_entries-IsValid symbol m [] s v = v
  fill_entries-IsValid symbol m ((r, o) ∷ resting) s v =
      elim (Bool-cases (crosses N o.position_side m (number_of N o.price))) [
        | inl e ↦ rw e (
            fill_entries-IsValid symbol m resting (fill_resting N symbol r o s)
              (fill_resting-IsValid symbol r o s v))
        | inr e ↦ rw e (fill_entries-IsValid symbol m resting s v)
      ]

  trigger-IsValid :
      (symbol : String) (p : PaperPosition N) (o : PaperOrder) (s : Paper N)
      → IsValid N s
      → IsValid N (trigger N symbol p o s).0
  unfolding trigger
  trigger-IsValid symbol p o s v =
      let u = (close_at N symbol (number_of N o.stop_price) none s).0 in
      let (vp, vo, vc, vm, vl) = close_at-IsValid symbol (number_of N o.stop_price) none s v in
      (vp, vo, Dict.set-HasUniqueKeys o.client_order_id _ u.closed vc, vm, vl)

  check_protection-IsValid :
      (symbol : String) (m : Number) (p : PaperPosition N) (s : Paper N)
      → IsValid N s
      → IsValid N (check_protection N symbol m p s).0
  unfolding check_protection
  check_protection-IsValid symbol m p s v =
      elim (Option-cases (find (is_hit N p m) (filter (λ o. protects symbol o.1) s.orders))) [
        | inl e ↦ rw (e, check_protection) v
        | inr (found, e) ↦ rw (e, check_protection) (trigger-IsValid symbol p found.1 s v)
      ]

  pub after_entries-IsValid :
      (symbol : String) (m : Number) (s : Paper N)
      → IsValid N s
      → IsValid N (after_entries N symbol m s).0
  unfolding after_entries
  after_entries-IsValid symbol m s v = elim (Option-cases (Dict.get symbol s.positions)) [
    | inl e ↦ rw (e, after_entries) v
    | inr (p, e) ↦ rw (e, after_entries) (check_protection-IsValid symbol m p s v)
  ]

  pub set_mark-IsValid :
      (symbol price : String) (s : Paper N) → IsValid N s → IsValid N (set_mark N symbol price s)
  unfolding set_mark
  set_mark-IsValid symbol price s (vp, vo, vc, vm, vl) =
      (vp, vo, vc, Dict.set-HasUniqueKeys symbol price s.marks vm, vl)

  pub tick-IsValid :
      (symbol price : String) (s : Paper N) → IsValid N s → IsValid N (tick N symbol price s).0
  unfolding tick
  tick-IsValid symbol price s v =
      let marked = set_mark N symbol price s in
      let m = of_text price in
      after_entries-IsValid symbol m
        (fill_entries N symbol m (filter (is_resting symbol) marked.orders) marked).0
        (fill_entries-IsValid symbol m (filter (is_resting symbol) marked.orders) marked
          (set_mark-IsValid symbol price s v))
