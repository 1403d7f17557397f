-- ===== src/Threads/Reconcile/Invariants.antt =====
-- What one reconciliation pass may do to a thread, whatever the facts.
use trade_gate.Prelude.{
  ◌+◌, ◌≡◌, ◌⊎◌, Bool, true, false, Option, none, some, [], arith, if◌then◌else◌,
}
use trade_gate.Numbers.{Numbers}
use trade_gate.Graph.Types.{ThreadStatus, pending_entry, in_position, closed, canceled, invalidated}
use trade_gate.Threads.Types.{StrategyThread}
use trade_gate.Threads.Facts.{
  OrderStatusView, PositionView, EntryOrder, unqueried, gone, found, ThreadFacts, ReconcileResult,
  unchanged,
}
use trade_gate.Threads.Reconcile.{
  fill_entry, pending_rest, unexplained_position, order_gone, position_gone, order_found,
  pending_lookup, reconcile_pending, check_stop, reconcile_in_position, reconcile_status,
  reconcile_thread,
}

-- An unchanged result is the thread itself, with nothing to report; a changed one has the next
-- version and the time of the facts.
abbrev pub IsAccounted : StrategyThread → ThreadFacts → ReconcileResult → Type 0
IsAccounted t f r =
    ((r.changed ≡ false) × (r.next ≡ t) × (r.events ≡ []))
    ⊎ ((r.changed ≡ true) × (r.next.version ≡ t.version + 1) × (r.next.updated_at ≡ f.now))

-- What a pass never touches.
pub record Keeps (t u : StrategyThread) : Type 0 where
  pub id : u.id ≡ t.id
  pub symbol : u.symbol ≡ t.symbol
  pub side : u.side ≡ t.side
  pub stop_price : u.stop_price ≡ t.stop_price
  pub take_profits : u.take_profits ≡ t.take_profits
  pub entry_client_order_id : u.entry_client_order_id ≡ t.entry_client_order_id
  pub protection : u.protection_client_order_ids ≡ t.protection_client_order_ids
  pub leg_seq : u.leg_seq ≡ t.leg_seq
  pub created_at : u.created_at ≡ t.created_at

abbrev IsAllowed : StrategyThread → ThreadFacts → ReconcileResult → Type 0
IsAllowed t f r = IsAccounted t f r × Keeps t r.next

unexplained-IsAllowed :
    (t : StrategyThread) (f : ThreadFacts) → IsAllowed t f (unexplained_position t f)
unfolding unexplained_position
unexplained-IsAllowed t f = (ground arith, ground arith)

order_gone-IsAllowed : (t : StrategyThread) (f : ThreadFacts) → IsAllowed t f (order_gone t f)
unfolding order_gone
order_gone-IsAllowed t f = (ground arith, ground arith)

position_gone-IsAllowed : (t : StrategyThread) (f : ThreadFacts) → IsAllowed t f (position_gone t f)
unfolding position_gone
position_gone-IsAllowed t f = (ground arith, ground arith)

order_found-IsAllowed :
    (t : StrategyThread) (f : ThreadFacts) (order : OrderStatusView)
    → IsAllowed t f (order_found t f order)
unfolding order_found
order_found-IsAllowed t f order = (ground arith, ground arith)

unchanged-IsAllowed : (t : StrategyThread) (f : ThreadFacts) → IsAllowed t f (unchanged t)
unfolding unchanged
unchanged-IsAllowed t f = (ground arith, ground arith)

if-IsAllowed :
    (t : StrategyThread) (f : ThreadFacts) (b : Bool) (r s : ReconcileResult)
    → IsAllowed t f r
    → IsAllowed t f s
    → IsAllowed t f (if b then r else s)
if-IsAllowed t f true r s h k = h
if-IsAllowed t f false r s h k = k

module _ (N : Numbers) (t : StrategyThread) (f : ThreadFacts) where
  fill_entry-IsAllowed :
      (order : OrderStatusView) (p : PositionView) → IsAllowed t f (fill_entry N t f order p)
  unfolding fill_entry
  fill_entry-IsAllowed order p = (ground arith, ground arith)

  check_stop-IsAllowed : IsAllowed t f (check_stop N t f)
  unfolding check_stop
  check_stop-IsAllowed = (ground arith, ground arith)

  in_position-IsAllowed : IsAllowed t f (reconcile_in_position N t f)
  unfolding reconcile_in_position
  in_position-IsAllowed = if-IsAllowed t f _ _ _ (position_gone-IsAllowed t f) check_stop-IsAllowed

  lookup-IsAllowed : (e : EntryOrder) → IsAllowed t f (pending_lookup N t f e)
  unfolding pending_lookup
  lookup-IsAllowed unqueried = unchanged-IsAllowed t f
  lookup-IsAllowed gone =
      if-IsAllowed t f _ _ _ (order_gone-IsAllowed t f) (unchanged-IsAllowed t f)
  lookup-IsAllowed (found order) =
      if-IsAllowed t f _ _ _ (order_found-IsAllowed t f order) (unchanged-IsAllowed t f)

  rest-IsAllowed : (b : Bool) → IsAllowed t f (pending_rest N t f b)
  unfolding pending_rest
  rest-IsAllowed b =
      if-IsAllowed t f _ _ _ (unexplained-IsAllowed t f) (lookup-IsAllowed f.entry_order)

  pending-IsAllowed :
      (e : EntryOrder) (p : Option PositionView) → IsAllowed t f (reconcile_pending N t f e p)
  unfolding reconcile_pending
  pending-IsAllowed unqueried p = rest-IsAllowed false
  pending-IsAllowed gone p = rest-IsAllowed false
  pending-IsAllowed (found order) none = rest-IsAllowed _
  pending-IsAllowed (found order) (some p) =
      if-IsAllowed t f _ _ _ (fill_entry-IsAllowed order p) (rest-IsAllowed _)

  status-IsAllowed : (s : ThreadStatus) → IsAllowed t f (reconcile_status N s t f)
  unfolding reconcile_status
  status-IsAllowed pending_entry = pending-IsAllowed f.entry_order f.position
  status-IsAllowed in_position = in_position-IsAllowed
  status-IsAllowed closed = unchanged-IsAllowed t f
  status-IsAllowed canceled = unchanged-IsAllowed t f
  status-IsAllowed invalidated = unchanged-IsAllowed t f

  -- A pass that reports no change returns the thread as it was and no event; a pass that changes
  -- it gives the next version and the time of the facts. Either way the thread keeps its identity,
  -- its prices, its order ids and its leg counter.
  pub reconcile_thread-IsAccounted :
      IsAccounted t f (reconcile_thread N t f) × Keeps t (reconcile_thread N t f).next
  unfolding reconcile_thread
  reconcile_thread-IsAccounted = status-IsAllowed t.status
