-- ===== src/Paper/Lifecycle.antt =====
-- The life of an order in the backend, as `getOrder` tells it.
use mathlib.Core.Bool.{false≢true}
use trade_gate.Prelude.{
  ℕ, ◌≡◌, refl, sym, ◌∙◌, Bool, true, false, not, ◌&&◌, ◌⊎◌, inl, inr, none, some, String, List, [],
  ◌∷◌, arith, all, find, ◌==◌, string_eq, nat_eq, Option-cases, Bool-cases,
}
use trade_gate.Dict
use trade_gate.Numbers.{Numbers}
use trade_gate.Threads.Types.{EntryType, market, limit}
use trade_gate.Paper.Types.{
  PaperOrder, stop_market, take_profit_market, Orders, canceled_view, Paper,
}
use trade_gate.Paper.Fills.{mark}
use trade_gate.Paper.Orders.{
  EntryRequest, push, place_limit, fill_now, place_as, place_entry, place_stop, place_take_profit,
  close_position, reduce_position, cancel_all, cancel_order, settle, leverage_of, limit_entry,
  protective_order, has_id, is_order, new_view, get_order,
}
use trade_gate.Paper.Steps.{
  PaperCall, marks, leverages, enters, stops, takes, closes, reduces, cancels_all, cancels, ticks,
  paper_step, paper_run,
}
use trade_gate.Paper.Fate.{
  is_open_id, has_ended, Fate-trans, Fate-refl, retire-Fate, settle-Fate, push-Fate,
}
use trade_gate.Paper.FillFate.{FateOf, fill-FillFate, close_at-FillFate}
use trade_gate.Paper.TickFate.{tick-FateOf}
use trade_gate.Paper.Valid.{IsValid}
use trade_gate.Paper.Invariant.{paper_step-IsValid}

-- The call that brings an order with the id into the backend.
unfoldable pub places : String → PaperCall → Bool
places id (enters req) = req.client_order_id == id
places id (stops symbol position price cid) = cid == id
places id (takes symbol position price cid) = cid == id
places id _ = false

-- The search of `cancelOrder` finds an object with the id.
find-is_order :
    (symbol id : String) (os : Orders) (r : ℕ) (o : PaperOrder)
    → find (is_order symbol id) os ≡ some (r, o)
    → Dict.HasUniqueKeys os
    → (Dict.get r os ≡ some o) × (has_id id o ≡ true)
unfolding Dict.get
find-is_order symbol id [] r o h u = ground arith
find-is_order symbol id ((j, w) ∷ os) r o h u =
    ground (arith, find-is_order symbol id os r o, nat_eq.beq_iff j r)

find-is_open_id :
    (id : String) (os : Orders) → is_open_id id os ≡ false → find (λ o. has_id id o.1) os ≡ none
find-is_open_id id [] h = refl
find-is_open_id id ((j, w) ∷ os) h = ground (arith, find-is_open_id id os)

find-none :
    (id : String) (os : Orders) → find (λ o. has_id id o.1) os ≡ none → is_open_id id os ≡ false
find-none id [] h = refl
find-none id ((j, w) ∷ os) h = ground (arith, find-none id os)

if_and : (a b : Bool) → (not a && b) ≡ true → (a ≡ false) × (b ≡ true)
if_and a b h = ground (arith, h)

pub get_order-closed :
    (N : Numbers) (id : String) (s : Paper N)
    → is_open_id id s.orders ≡ false
    → get_order N id s ≡ Dict.get id s.closed
unfolding get_order
get_order-closed N id s h = rw (get_order, find-is_open_id id s.orders h) refl

pub get_order-open :
    (N : Numbers) (id : String) (s : Paper N)
    → is_open_id id s.orders ≡ true
    → get_order N id s ≡ some new_view
unfolding get_order
get_order-open N id s h = elim (Option-cases (find (λ o. has_id id o.1) s.orders)) [
  | inl e ↦ absurd (false≢true (sym (find-none id s.orders e) ∙ h))
  | inr (x, e) ↦ rw (get_order, e) refl
]

module _ (N : Numbers) (id : String) where
  open N use {Number, of_text, lt, to_text}

  push-FateOf : (o : PaperOrder) (s : Paper N) → has_id id o ≡ false → FateOf N id s (push N o s)
  unfolding push
  push-FateOf o s h = push-Fate id s.next_object o s.orders s.closed h

  place_as-FateOf :
      (entry : EntryType) (req : EntryRequest) (m : Number) (s : Paper N)
      → (req.client_order_id == id) ≡ false
      → FateOf N id s (place_as N entry req m s).0
  unfolding place_as place_limit fill_now
  place_as-FateOf market req m s h =
      (fill-FillFate N id req.symbol req.direction (of_text req.qty) m (leverage_of N req.symbol s)
        s).0
  place_as-FateOf limit req m s h = ground (
    arith,
    (fill-FillFate N id req.symbol req.direction (of_text req.qty) m (leverage_of N req.symbol s)
        s).0,
    push-FateOf (limit_entry req) s h,
  )

  place_entry-FateOf :
      (req : EntryRequest) (s : Paper N)
      → (req.client_order_id == id) ≡ false
      → FateOf N id s (place_entry N req s).0
  unfolding place_entry
  place_entry-FateOf req s h = elim (Bool-cases (lt (of_text "0") (mark N req.symbol s))) [
    | inl e ↦ rw (place_entry, e) (place_as-FateOf req.entry req (mark N req.symbol s) s h)
    | inr e ↦ rw (place_entry, e) (Fate-refl id s.orders s.closed)
  ]

  close_position-FateOf :
      (symbol : String) (s : Paper N) → FateOf N id s (close_position N symbol s).0
  unfolding close_position
  close_position-FateOf symbol s = elim (Option-cases (Dict.get symbol s.positions)) [
    | inl e ↦ rw (e, close_position) (Fate-refl id s.orders s.closed)
    | inr (p, e) ↦ rw (e, close_position) (close_at-FillFate N id symbol (mark N symbol s) none s).0
  ]

  reduce_position-FateOf :
      (symbol qty : String) (s : Paper N) → FateOf N id s (reduce_position N symbol qty s).0
  unfolding reduce_position
  reduce_position-FateOf symbol qty s = elim (Option-cases (Dict.get symbol s.positions)) [
    | inl e ↦ rw (e, reduce_position) (Fate-refl id s.orders s.closed)
    | inr (p, e) ↦
        rw (e, reduce_position)
          (close_at-FillFate N id symbol (mark N symbol s) (some (of_text qty)) s).0
  ]

  cancel_order-FateOf :
      (symbol cid : String) (s : Paper N)
      → IsValid N s
      → FateOf N id s (cancel_order N symbol cid s).0
  unfolding cancel_order settle
  cancel_order-FateOf symbol cid s v = elim (Option-cases (find (is_order symbol cid) s.orders)) [
    | inl e ↦ rw (e, cancel_order) (Fate-refl id s.orders s.closed)
    | inr (found, e) ↦
        let (g, h) = find-is_order symbol cid s.orders found.0 found.1 e v.1.1 in
        let same = (string_eq.beq_iff found.1.client_order_id cid).0 h in
        rw (e, cancel_order, sym same)
          (settle-Fate id found.0 found.1 canceled_view s.orders s.closed v.1.1 g refl)
  ]

  paper_step-FateOf :
      (s : Paper N) (c : PaperCall)
      → IsValid N s
      → places id c ≡ false
      → FateOf N id s (paper_step N s c)
  unfolding paper_step places cancel_all place_stop place_take_profit
  paper_step-FateOf s (marks symbol price) v h = Fate-refl id s.orders s.closed
  paper_step-FateOf s (leverages symbol leverage) v h = Fate-refl id s.orders s.closed
  paper_step-FateOf s (enters req) v h = place_entry-FateOf req s h
  paper_step-FateOf s (stops symbol position price cid) v h =
      push-FateOf (protective_order symbol position price cid stop_market) s h
  paper_step-FateOf s (takes symbol position price cid) v h =
      push-FateOf (protective_order symbol position price cid take_profit_market) s h
  paper_step-FateOf s (closes symbol) v h = close_position-FateOf symbol s
  paper_step-FateOf s (reduces symbol qty) v h = reduce_position-FateOf symbol qty s
  paper_step-FateOf s (cancels_all symbol) v h =
      retire-Fate id (λ o. o.symbol == symbol) s.orders s.closed
  paper_step-FateOf s (cancels symbol cid) v h = cancel_order-FateOf symbol cid s v
  paper_step-FateOf s (ticks symbol price) v h = tick-FateOf N id symbol price s v

  paper_run-FateOf :
      (s : Paper N) (calls : List PaperCall)
      → IsValid N s
      → all (λ c. not (places id c)) calls ≡ true
      → FateOf N id s (paper_run N s calls)
  unfolding paper_run
  paper_run-FateOf s [] v h = Fate-refl id s.orders s.closed
  paper_run-FateOf s (c ∷ calls) v h =
      let t = paper_step N s c in
      let z = paper_run N t calls in
      let e = if_and (places id c) _ h in
      Fate-trans id s.orders t.orders z.orders s.closed t.closed z.closed
        (paper_step-FateOf s c v (e.0)) (paper_run-FateOf t calls (paper_step-IsValid N s c v) e.1)

  -- As long as the well-formed state has no open order with an id, and no call places one with it,
  -- the answer about this id stays what it is: an order that ended is not open again and its end
  -- does not change.
  pub get_order-final :
      (s : Paper N) (calls : List PaperCall)
      → IsValid N s
      → all (λ c. not (places id c)) calls ≡ true
      → is_open_id id s.orders ≡ false
      → get_order N id (paper_run N s calls) ≡ get_order N id s
  get_order-final s calls v h o =
      let (p, q) = (paper_run-FateOf s calls v h).0 o in
      get_order-closed N id (paper_run N s calls) p ∙ q ∙ sym (get_order-closed N id s o)

  -- An order that is open in a well-formed state is not lost: after any calls that place none with
  -- its id, it is still reported as new, or as filled or canceled.
  pub get_order-kept :
      (s : Paper N) (calls : List PaperCall)
      → IsValid N s
      → all (λ c. not (places id c)) calls ≡ true
      → is_open_id id s.orders ≡ true
      → (get_order N id (paper_run N s calls) ≡ some new_view)
        ⊎ (has_ended (get_order N id (paper_run N s calls)) ≡ true)
  get_order-kept s calls v h o =
      let t = paper_run N s calls in
      elim (Bool-cases (is_open_id id t.orders)) [
        | inl e ↦ inl (get_order-open N id t e)
        | inr e ↦ inr (rw (get_order-closed N id t e) ((paper_run-FateOf s calls v h).1 o e))
      ]
