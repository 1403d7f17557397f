-- ===== src/Paper/Orders.antt =====
-- The calls that place, close and cancel.
use trade_gate.Prelude.{
  ℕ, suc, Option, none, some, String, [], ◌∷◌, ◌++◌, Bool, true, false, not, ◌&&◌, ◌==◌, string_eq,
  nat_eq, if◌then◌else◌, find,
}
use trade_gate.Dict
use trade_gate.Numbers.{Numbers}
use trade_gate.Threads.Types.{Direction, long, short, EntryType, market, limit}
use trade_gate.Threads.Facts.{OrderStatusView, new}
use trade_gate.Paper.Types.{
  PaperOrderType, limit_order, stop_market, take_profit_market, PaperOrder, canceled_view, Paper,
  number_of,
}
use trade_gate.Paper.Fills.{retire, mark, close_at, fill}

pub data OrderOutcome : Type 0 where
  filled submitted unknown failed : OrderOutcome

-- The receipt itself, which only logs keep, is left out.
pub record OrderReceipt : Type 0 where
  pub outcome : OrderOutcome
  pub avg_price : Option String
  pub error : Option String

pub record EntryRequest : Type 0 where
  pub symbol : String
  pub direction : Direction
  pub qty : String
  pub entry : EntryType
  pub limit_price : Option String
  pub client_order_id : String

abbrev refused : String → OrderReceipt
refused text = record { outcome = OrderOutcome.failed; avg_price = none; error = some text }

abbrev accepted : OrderReceipt
accepted = record { outcome = OrderOutcome.submitted; avg_price = none; error = none }

abbrev done_at : String → OrderReceipt
done_at price = record { outcome = OrderOutcome.filled; avg_price = some price; error = none }

-- The side of an order that opens a position, and of one that closes it.
abbrev pub opening_side : Direction → String
opening_side long = "BUY"
opening_side short = "SELL"

abbrev pub closing_side : Direction → String
closing_side long = "SELL"
closing_side short = "BUY"

abbrev pub has_id : String → PaperOrder → Bool
has_id id o = o.client_order_id == id

abbrev pub is_order : String → String → ℕ × PaperOrder → Bool
is_order symbol id (r, o) = o.symbol == symbol && has_id id o

abbrev pub limit_entry : EntryRequest → PaperOrder
limit_entry req = record {
  symbol = req.symbol;
  position_side = req.direction;
  client_order_id = req.client_order_id;
  type = limit_order;
  side = opening_side req.direction;
  qty = req.qty;
  price = req.limit_price;
  stop_price = none;
  reduce_only = false;
}

abbrev pub protective_order : String → Direction → String → String → PaperOrderType → PaperOrder
protective_order symbol position price id type = record {
  symbol = symbol;
  position_side = position;
  client_order_id = id;
  type = type;
  side = closing_side position;
  qty = "0";
  price = none;
  stop_price = some price;
  reduce_only = true;
}

abbrev pub new_view : OrderStatusView
new_view = record { status = new; avg_price = none; executed_qty = "0" }

module _ (N : Numbers) where
  open N use {Number, of_text, lt, le, to_text}

  unfoldable pub set_mark : String → String → Paper N → Paper N
  set_mark symbol price s = record s { marks = Dict.set symbol price s.marks }

  unfoldable pub set_leverage : String → ℕ → Paper N → Paper N
  set_leverage symbol leverage s = record s { leverages = Dict.set symbol leverage s.leverages }

  unfoldable pub leverage_of : String → Paper N → ℕ
  leverage_of symbol s = elim (Dict.get symbol s.leverages) [ none ↦ 3 | some l ↦ l ]

  -- `this.orders.push`
  unfoldable pub push : PaperOrder → Paper N → Paper N
  push o s = record s {
    orders = s.orders ++ (s.next_object, o) ∷ [];
    next_object = suc s.next_object;
  }

  -- A long limit fills at or below its price, a short one at or above.
  unfoldable pub crosses : Direction → Number → Number → Bool
  crosses long m price = le m price
  crosses short m price = le price m

  unfoldable pub fill_now : EntryRequest → Number → Paper N → Paper N × OrderReceipt
  unfolding fill leverage_of
  fill_now req m s = (
    fill N req.symbol req.direction (of_text req.qty) m (leverage_of req.symbol s) s,
    done_at (to_text m),
  )

  unfoldable pub place_limit : EntryRequest → Number → Paper N → Paper N × OrderReceipt
  unfolding fill_now push crosses
  place_limit req m s =
      let price = number_of N req.limit_price in
      if not (lt (of_text "0") price)
      then (s, refused "paper: limit price required")
      else if crosses req.direction m price
      then fill_now req m s
      else (push (limit_entry req) s, accepted)

  -- The branches of the two types of entry.
  unfoldable pub place_as : EntryType → EntryRequest → Number → Paper N → Paper N × OrderReceipt
  unfolding place_limit fill_now
  place_as market req m s = fill_now req m s
  place_as limit req m s = place_limit req m s

  unfoldable pub place_entry : EntryRequest → Paper N → Paper N × OrderReceipt
  unfolding mark place_as
  place_entry req s =
      let m = mark N req.symbol s in
      let placed = place_as req.entry req m s in
      if not (lt (of_text "0") m) then (s, refused "paper: no mark price yet") else placed

  unfoldable pub place_stop :
      String → Direction → String → String → Paper N → Paper N × OrderReceipt
  unfolding push
  place_stop symbol position price id s =
      (push (protective_order symbol position price id stop_market) s, accepted)

  unfoldable pub place_take_profit :
      String → Direction → String → String → Paper N → Paper N × OrderReceipt
  unfolding push
  place_take_profit symbol position price id s =
      (push (protective_order symbol position price id take_profit_market) s, accepted)

  -- `closePosition`; the flag is `closed`.
  unfoldable pub close_position : String → Paper N → Paper N × Bool
  unfolding mark close_at
  close_position symbol s = elim (Dict.get symbol s.positions) [
    | none ↦ (s, false)
    | some p ↦ ((close_at N symbol (mark N symbol s) none s).0, true)
  ]

  unfoldable pub reduce_position : String → String → Paper N → Paper N × OrderReceipt
  unfolding mark close_at
  reduce_position symbol qty s = elim (Dict.get symbol s.positions) [
    | none ↦ (s, refused "paper: no position")
    | some p ↦ (
      (close_at N symbol (mark N symbol s) (some (of_text qty)) s).0,
      done_at (to_text (mark N symbol s)),
    )
  ]

  unfoldable pub cancel_all : String → Paper N → Paper N
  unfolding retire
  cancel_all symbol s = retire N (λ o. o.symbol == symbol) s

  -- Takes the object out of `orders` and notes the order's end.
  unfoldable pub settle : ℕ → String → OrderStatusView → Paper N → Paper N
  settle r id ended s = record s {
    closed = Dict.set id ended s.closed;
    orders = Dict.remove r s.orders;
  }

  -- `cancelOrder`; the flag is `ok`.
  unfoldable pub cancel_order : String → String → Paper N → Paper N × Bool
  unfolding settle
  cancel_order symbol id s = elim (find (is_order symbol id) s.orders) [
    | none ↦ (s, false)
    | some found ↦ (settle found.0 id canceled_view s, true)
  ]

  unfoldable pub get_order : String → Paper N → Option OrderStatusView
  get_order id s = elim (find (λ o. has_id id o.1) s.orders) [
    | none ↦ Dict.get id s.closed
    | some found ↦ some new_view
  ]
