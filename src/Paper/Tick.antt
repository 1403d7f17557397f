-- ===== src/Paper/Tick.antt =====
-- `tick`: a new mark price fills the resting entries that it crosses and triggers protection.
use trade_gate.Prelude.{
  ℕ, Option, none, some, String, List, [], ◌∷◌, ◌++◌, Bool, ◌&&◌, ◌==◌, string_eq, nat_eq,
  if◌then◌else◌, find, filter,
}
use trade_gate.Dict
use trade_gate.Numbers.{Numbers}
use trade_gate.Threads.Types.{long, short}
use trade_gate.Threads.Facts.{OrderStatusView, filled}
use trade_gate.Paper.Types.{
  PaperOrderType, is_limit_order, is_stop_market, PaperOrder, Orders, PaperPosition, Paper,
  number_of,
}
use trade_gate.Paper.Fills.{close_at, fill, protects}
use trade_gate.Paper.Orders.{set_mark, leverage_of, crosses, settle}

pub data PaperEventKind : Type 0 where
  entry_filled sl_hit tp_hit : PaperEventKind

pub record PaperEvent : Type 0 where
  pub kind : PaperEventKind
  pub symbol : String
  pub client_order_id : String
  pub price : String
  pub realized_pnl : Option String

abbrev pub filled_view : String → String → OrderStatusView
filled_view price qty = record { status = filled; avg_price = some price; executed_qty = qty }

abbrev pub is_resting : String → ℕ × PaperOrder → Bool
is_resting symbol (r, o) = o.symbol == symbol && is_limit_order o.type

module _ (N : Numbers) where
  open N use {Number, of_text, le, to_text, to_fixed}

  unfoldable pub fill_resting : String → ℕ → PaperOrder → Paper N → Paper N
  unfolding fill settle leverage_of
  fill_resting symbol r o s =
      let price = number_of N o.price in
      settle N r o.client_order_id (filled_view (to_text price) o.qty)
        (fill N symbol o.position_side (of_text o.qty) price (leverage_of N symbol s) s)

  abbrev pub entry_event : String → PaperOrder → PaperEvent
  entry_event symbol o = record {
    kind = entry_filled;
    symbol = symbol;
    client_order_id = o.client_order_id;
    price = to_text (number_of N o.price);
    realized_pnl = none;
  }

  -- The loop over the resting entries, as they were when it began.
  unfoldable pub fill_entries : String → Number → Orders → Paper N → Paper N × List PaperEvent
  unfolding fill_resting crosses
  fill_entries symbol m [] s = (s, [])
  fill_entries symbol m ((r, o) ∷ resting) s =
      let hit = crosses N o.position_side m (number_of N o.price) in
      let (u, events) =
        fill_entries symbol m resting (if hit then fill_resting symbol r o s else s) in
      (u, if hit then entry_event symbol o ∷ events else events)

  unfoldable pub is_hit : PaperPosition N → Number → ℕ × PaperOrder → Bool
  unfolding crosses
  is_hit p m (r, o) =
      let level = number_of N o.stop_price in
      if is_stop_market o.type
      then crosses N p.side m level
      else (elim p.side [ long ↦ le level m | short ↦ le m level ])

  abbrev pub hit_kind : PaperOrderType → PaperEventKind
  hit_kind type = if is_stop_market type then sl_hit else tp_hit

  -- `p.qty` after `closeAt`, which changes the object where the position stays.
  abbrev pub left_of : PaperPosition N → Option (PaperPosition N) → Number
  left_of p none = p.qty
  left_of p (some q) = q.qty

  unfoldable pub trigger : String → PaperPosition N → PaperOrder → Paper N → Paper N × PaperEvent
  unfolding close_at
  trigger symbol p o s =
      let level = number_of N o.stop_price in
      let (u, pnl) = close_at N symbol level none s in
      let qty = left_of p (Dict.get symbol u.positions) in
      (
        record u {
          closed = Dict.set o.client_order_id (filled_view (to_text level) (to_text qty)) u.closed;
        },
        record {
          kind = hit_kind o.type;
          symbol = symbol;
          client_order_id = o.client_order_id;
          price = to_text level;
          realized_pnl = some (to_fixed pnl);
        },
      )

  -- The second loop, which stops at the first order that is hit.
  unfoldable pub check_protection :
      String → Number → PaperPosition N → Paper N → Paper N × List PaperEvent
  unfolding trigger is_hit
  check_protection symbol m p s =
      elim (find (is_hit p m) (filter (λ o. protects symbol o.1) s.orders)) [
        | none ↦ (s, [])
        | some found ↦ let (u, event) = trigger symbol p found.1 s in (u, event ∷ [])
      ]

  unfoldable pub after_entries : String → Number → Paper N → Paper N × List PaperEvent
  unfolding check_protection
  after_entries symbol m s = elim (Dict.get symbol s.positions) [
    | none ↦ (s, [])
    | some p ↦ check_protection symbol m p s
  ]

  unfoldable pub tick : String → String → Paper N → Paper N × List PaperEvent
  unfolding set_mark fill_entries after_entries
  tick symbol price s =
      let m = of_text price in
      let marked = set_mark N symbol price s in
      let (u, entries) = fill_entries symbol m (filter (is_resting symbol) marked.orders) marked in
      let (v, exits) = after_entries symbol m u in (v, entries ++ exits)
