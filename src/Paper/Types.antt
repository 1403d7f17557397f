-- ===== src/Paper/Types.antt =====
-- The state of `PaperBackend`.
use trade_gate.Prelude.{ℕ, Option, none, some, String, List, [], Bool, true, false}
use trade_gate.Numbers.{Numbers}
use trade_gate.Threads.Types.{Direction}
use trade_gate.Threads.Facts.{OrderStatusView, order_canceled}

-- The types that the backend gives to its orders.
pub data PaperOrderType : Type 0 where
  limit_order stop_market take_profit_market : PaperOrderType

abbrev pub is_limit_order : PaperOrderType → Bool
is_limit_order limit_order = true
is_limit_order _ = false

abbrev pub is_stop_market : PaperOrderType → Bool
is_stop_market stop_market = true
is_stop_market _ = false

-- `status` is 'NEW' in every order.
pub record PaperOrder : Type 0 where
  pub symbol : String
  pub position_side : Direction
  pub client_order_id : String
  pub type : PaperOrderType
  pub side : String
  pub qty : String
  pub price : Option String
  pub stop_price : Option String
  pub reduce_only : Bool

-- The objects in `this.orders`, each with its identity.
abbrev pub Orders : Type 0
Orders = List (ℕ × PaperOrder)

abbrev pub Closed : Type 0
Closed = List (String × OrderStatusView)

abbrev pub canceled_view : OrderStatusView
canceled_view = record { status = order_canceled; avg_price = none; executed_qty = "0" }

module _ (N : Numbers) where
  open N use {Number, of_text}

  pub record PaperPosition : Type 0 where
    pub symbol : String
    pub side : Direction
    pub qty : Number
    pub entry_price : Number
    pub leverage : ℕ

  pub record Paper : Type 0 where
    pub wallet : Number
    pub positions : List (String × PaperPosition)
    pub orders : Orders
    pub closed : Closed
    pub marks : List (String × String)
    pub leverages : List (String × ℕ)
    pub next_object : ℕ

  abbrev pub fee_rate : Number
  fee_rate = of_text "0.0004"

  -- The constructor with nothing to restore.
  abbrev pub new_paper : Number → Paper
  new_paper starting_equity = record {
    wallet = starting_equity;
    positions = [];
    orders = [];
    closed = [];
    marks = [];
    leverages = [];
    next_object = 0;
  }

  -- `Number(x)` of a text or `null`.
  abbrev pub number_of : Option String → Number
  number_of none = of_text "0"
  number_of (some s) = of_text s
