-- ===== src/Paper/Account.antt =====
-- `account` and `markPrice`: what the backend tells. The time of the view is left out.
use trade_gate.Prelude.{
  Bool, Option, ℕ, none, some, String, List, [], ◌∷◌, if◌then◌else◌, map, string_eq,
}
use trade_gate.Dict
use trade_gate.Numbers.{Numbers}
use trade_gate.Threads.Types.{Direction, long, short}
use trade_gate.Paper.Types.{PaperOrderType, PaperOrder, PaperPosition, Paper}
use trade_gate.Paper.Fills.{mark}

pub record AccountPosition : Type 0 where
  pub symbol : String
  pub side : Direction
  pub qty : String
  pub entry_price : String
  pub mark_price : String
  pub unrealized_pnl : String
  pub leverage : ℕ

-- An open order as the account shows it, without its position's side.
pub record AccountOrder : Type 0 where
  pub symbol : String
  pub client_order_id : String
  pub type : PaperOrderType
  pub side : String
  pub qty : String
  pub price : Option String
  pub stop_price : Option String
  pub reduce_only : Bool

abbrev order_view : PaperOrder → AccountOrder
order_view o = record {
  symbol = o.symbol;
  client_order_id = o.client_order_id;
  type = o.type;
  side = o.side;
  qty = o.qty;
  price = o.price;
  stop_price = o.stop_price;
  reduce_only = o.reduce_only;
}

pub record AccountView : Type 0 where
  pub equity : String
  pub available : String
  pub unrealized_pnl : String
  pub positions : List AccountPosition
  pub open_orders : List AccountOrder

module _ (N : Numbers) where
  open N use {Number, of_text, add, sub, mul, is_truthy, to_text, to_fixed}

  unfoldable pub mark_price : String → Paper N → String
  mark_price symbol s = elim (Dict.get symbol s.marks) [ none ↦ "0" | some m ↦ m ]

  -- The mark, or the entry price where there is none.
  unfoldable pub mark_or_entry : PaperPosition N → Paper N → Number
  unfolding mark
  mark_or_entry p s = if is_truthy (mark N p.symbol s) then mark N p.symbol s else p.entry_price

  unfoldable pub open_profit : PaperPosition N → Number → Number
  open_profit p m = elim p.side [
    | long ↦ mul (sub m p.entry_price) p.qty
    | short ↦ mul (sub p.entry_price m) p.qty
  ]

  unfoldable pub position_view : Paper N → PaperPosition N → AccountPosition
  unfolding mark_or_entry open_profit
  position_view s p = record {
    symbol = p.symbol;
    side = p.side;
    qty = to_text p.qty;
    entry_price = to_text p.entry_price;
    mark_price = to_text (mark_or_entry p s);
    unrealized_pnl = to_fixed (open_profit p (mark_or_entry p s));
    leverage = p.leverage;
  }

  -- The sum of the loop.
  unfoldable pub total_profit : Paper N → Number → List (PaperPosition N) → Number
  unfolding mark_or_entry open_profit
  total_profit s upnl [] = upnl
  total_profit s upnl (p ∷ ps) = total_profit s (add upnl (open_profit p (mark_or_entry p s))) ps

  unfoldable pub account : Paper N → AccountView
  unfolding total_profit position_view
  account s =
      let upnl = total_profit s (of_text "0") (Dict.values s.positions) in
      record {
        equity = to_fixed (add s.wallet upnl);
        available = to_fixed s.wallet;
        unrealized_pnl = to_fixed upnl;
        positions = map (position_view s) (Dict.values s.positions);
        open_orders = map order_view (Dict.values s.orders);
      }
