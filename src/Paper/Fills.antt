-- ===== src/Paper/Fills.antt =====
-- `mark`, `closeAt` and `fill`: what moves the wallet and the positions.
use trade_gate.Prelude.{
  ℕ, Option, none, some, String, [], ◌∷◌, Bool, ◌&&◌, ◌==◌, string_eq, if◌then◌else◌,
}
use trade_gate.Dict
use trade_gate.Numbers.{Numbers}
use trade_gate.Threads.Types.{Direction, long, short, direction_eq}
use trade_gate.Paper.Types.{
  PaperOrder, Orders, Closed, canceled_view, PaperPosition, Paper, fee_rate, number_of,
}

-- `for (const o of this.orders.filter(p)) this.closed.set(o.client_order_id, CANCELED)`
unfoldable pub cancel_where : (PaperOrder → Bool) → Orders → Closed → Closed
cancel_where p [] closed = closed
cancel_where p ((r, o) ∷ orders) closed =
    cancel_where p orders (if p o then Dict.set o.client_order_id canceled_view closed else closed)

-- `this.orders.filter((o) => !p(o))`
unfoldable pub keep_others : (PaperOrder → Bool) → Orders → Orders
keep_others p [] = []
keep_others p ((r, o) ∷ orders) =
    if p o then keep_others p orders else (r, o) ∷ keep_others p orders

abbrev pub protects : String → PaperOrder → Bool
protects symbol o = o.symbol == symbol && o.reduce_only

module _ (N : Numbers) where
  open N use {Number, of_text, le, add, sub, mul, div, least}

  -- The two statements that cancel some orders.
  unfoldable pub retire : (PaperOrder → Bool) → Paper N → Paper N
  unfolding cancel_where keep_others
  retire p s = record s {
    closed = cancel_where p s.orders s.closed;
    orders = keep_others p s.orders;
  }

  unfoldable pub mark : String → Paper N → Number
  mark symbol s = number_of N (Dict.get symbol s.marks)

  unfoldable pub profit : PaperPosition N → Number → Number → Number
  profit p price q =
      let gain : Number = elim p.side [
        | long ↦ sub price p.entry_price
        | short ↦ sub p.entry_price price
      ] in
      sub (mul gain q) (mul (mul price q) (fee_rate N))

  -- `closeAt` of the position `p`, for the quantity `q`.
  unfoldable pub close_part : String → Number → PaperPosition N → Number → Paper N → Paper N
  unfolding retire profit
  close_part symbol price p q s =
      let paid : Paper N = record s { wallet = add s.wallet (profit p price q) } in
      if le (sub p.qty (of_text "1e-12")) q
      then retire (protects symbol) (record paid { positions = Dict.remove symbol paid.positions })
      else record paid {
        positions = Dict.set symbol (record p { qty = sub p.qty q }) paid.positions;
      }

  abbrev pub part_of : PaperPosition N → Option Number → Number
  part_of p none = least p.qty p.qty
  part_of p (some qty) = least p.qty qty

  unfoldable pub close_at : String → Number → Option Number → Paper N → Paper N × Number
  unfolding close_part profit
  close_at symbol price qty s = elim (Dict.get symbol s.positions) [
    | none ↦ (s, of_text "0")
    | some p ↦ (close_part symbol price p (part_of p qty) s, profit p price (part_of p qty))
  ]

  -- More of the same side: the entry price is the mean by quantity.
  unfoldable pub enlarge : PaperPosition N → Number → Number → PaperPosition N
  enlarge p qty price = record p {
    entry_price = div (add (mul p.entry_price p.qty) (mul price qty)) (add p.qty qty);
    qty = add p.qty qty;
  }

  unfoldable pub fill_existing :
      String → Direction → Number → Number → PaperPosition N → Paper N → Paper N
  unfolding close_at enlarge
  fill_existing symbol side qty price p s =
      if p.side == side
      then record s { positions = Dict.set symbol (enlarge p qty price) s.positions }
      else (close_at symbol price (some qty) s).0

  unfoldable pub fill : String → Direction → Number → Number → ℕ → Paper N → Paper N
  unfolding fill_existing
  fill symbol side qty price leverage s =
      let paid : Paper N = record s { wallet = sub s.wallet (mul (mul price qty) (fee_rate N)) } in
      let opened : PaperPosition N = record {
        symbol = symbol;
        side = side;
        qty = qty;
        entry_price = price;
        leverage = leverage;
      } in
      elim (Dict.get symbol s.positions) [
        | none ↦ record paid { positions = Dict.set symbol opened paid.positions }
        | some p ↦ fill_existing symbol side qty price p paid
      ]
