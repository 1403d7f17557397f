-- ===== src/Threads/Reconcile/Causes.antt =====
-- Which facts move a thread's status.
use trade_gate.Prelude.{
  ◌≡◌, ◌&&◌, any, refl, ◌≢◌, ◌⊎◌, inl, inr, ◌↔◌, Bool, true, false, not, Option, none, some, arith,
  if◌then◌else◌, ◌==◌,
}
use trade_gate.Numbers.{Numbers}
use trade_gate.Graph.Types.{ThreadStatus, pending_entry, in_position, closed, canceled, invalidated}
use trade_gate.Threads.Types.{
  StrategyThread, direction_eq, Attention, protection_missing, external_position, order_unknown,
  entry_remainder, halt_incomplete, close_failed, other,
}
use trade_gate.Threads.Facts.{
  OrderStatusView, PositionView, EntryOrder, unqueried, gone, found, ThreadFacts, ReconcileResult,
  unchanged, is_filled, is_dead, pos_matches, is_some, is_missing, is_runtime_owned,
}
use trade_gate.Threads.Reconcile.{
  fill_entry, pending_rest, unexplained_position, order_gone, position_gone, order_found,
  pending_lookup, reconcile_pending, is_stop_of, check_stop, reconcile_in_position,
  reconcile_status, reconcile_thread,
}

-- The order is known to be dead, and the position is not this thread's.
abbrev pub IsRefused : StrategyThread → ThreadFacts → EntryOrder → Type 0
IsRefused t f unqueried = ⊥
IsRefused t f gone = ⊥
IsRefused t f (found order) = (is_dead order.status ≡ true) × (pos_matches t f.position ≡ false)

-- The order has filled, and the position has the thread's side.
abbrev pub IsFilledBy : StrategyThread → EntryOrder → Option PositionView → Type 0
IsFilledBy t (found order) (some p) = (is_filled order.status ≡ true) × (p.side ≡ t.side)
IsFilledBy t _ _ = ⊥

is_missing-eq : (a : Option Attention) → is_missing a ≡ true → a ≡ some protection_missing
is_missing-eq none h = ground arith
is_missing-eq (some protection_missing) h = refl
is_missing-eq (some external_position) h = ground arith
is_missing-eq (some order_unknown) h = ground arith
is_missing-eq (some entry_remainder) h = ground arith
is_missing-eq (some halt_incomplete) h = ground arith
is_missing-eq (some close_failed) h = ground arith
is_missing-eq (some (other s)) h = ground arith

is_some-eq : (a : Option Attention) → is_some a ≡ false → a ≡ none
is_some-eq none h = refl
is_some-eq (some a) h = ground arith

module _ (t : StrategyThread) (f : ThreadFacts) where
  unexplained-status : (unexplained_position t f).next.status ≡ t.status
  unfolding unexplained_position
  unexplained-status = ground arith

  order_gone-status : (order_gone t f).next.status ≡ t.status
  unfolding order_gone
  order_gone-status = ground arith

  -- Such a pass leaves the status, or cancels the thread for a refused order.
  abbrev pub Waits : ThreadStatus → EntryOrder → Type 0
  Waits s e = (s ≡ t.status) ⊎ ((s ≡ canceled) × IsRefused t f e)

  order_found-Waits :
      (order : OrderStatusView) → Waits (order_found t f order).next.status (found order)
  unfolding order_found
  order_found-Waits order = ground arith

  if-Waits :
      (b : Bool) (r s : ReconcileResult) (e : EntryOrder)
      → Waits r.next.status e
      → Waits s.next.status e
      → Waits (if b then r else s).next.status e
  if-Waits true r s e h k = h
  if-Waits false r s e h k = k

module _ (N : Numbers) (t : StrategyThread) (f : ThreadFacts) where
  lookup-Waits : (e : EntryOrder) → Waits t f (pending_lookup N t f e).next.status e
  unfolding pending_lookup unchanged
  lookup-Waits unqueried = inl refl
  lookup-Waits gone = if-Waits t f _ _ (unchanged t) gone (inl (order_gone-status t f)) (inl refl)
  lookup-Waits (found order) =
      if-Waits t f _ _ (unchanged t) (found order) (order_found-Waits t f order) (inl refl)

  rest-Waits : (b : Bool) → Waits t f (pending_rest N t f b).next.status f.entry_order
  unfolding pending_rest
  rest-Waits b =
      if-Waits t f _ _ (pending_lookup N t f f.entry_order) f.entry_order
        (inl (unexplained-status t f)) (lookup-Waits f.entry_order)

  -- How a pass moves a pending thread: it fills, or it waits.
  abbrev pub Moves : ReconcileResult → EntryOrder → Option PositionView → Type 0
  Moves r e p =
      ((r.next.status ≡ in_position) × (r.next.opened_at ≡ some f.now) × IsFilledBy t e p)
      ⊎ Waits t f r.next.status f.entry_order

  fill-Moves :
      (order : OrderStatusView) (p : PositionView) (b : Bool)
      → (is_filled order.status && p.side == t.side) ≡ b
      → Moves
          (if b then fill_entry N t f order p else pending_rest N t f (is_filled order.status))
          (found order)
          (some p)
  unfolding fill_entry
  fill-Moves order p true h = inl (refl, refl, ground (arith, direction_eq.beq_iff p.side t.side))
  fill-Moves order p false h = inr (rest-Waits _)

  pending-Moves :
      (e : EntryOrder) (p : Option PositionView) → Moves (reconcile_pending N t f e p) e p
  unfolding reconcile_pending
  pending-Moves unqueried p = inr (rest-Waits false)
  pending-Moves gone p = inr (rest-Waits false)
  pending-Moves (found order) none = inr (rest-Waits _)
  pending-Moves (found order) (some p) = fill-Moves order p _ refl

  check_stop-status : (check_stop N t f).next.status ≡ t.status
  unfolding check_stop
  check_stop-status = ground arith

  status-Moves :
      (s : ThreadStatus)
      → s ≡ pending_entry
      → Moves (reconcile_status N s t f) f.entry_order f.position
  unfolding reconcile_status
  status-Moves pending_entry h = pending-Moves f.entry_order f.position
  status-Moves in_position h = ground arith
  status-Moves closed h = ground arith
  status-Moves canceled h = ground arith
  status-Moves invalidated h = ground arith

  if-closes :
      (b : Bool)
      → t.status ≡ in_position
      → ((if not b then position_gone t f else check_stop N t f).next.status ≡ closed) ↔ (b ≡ false)
  unfolding position_gone
  if-closes true k = ground (arith, check_stop-status)
  if-closes false k = ground arith

  status-closes :
      (s : ThreadStatus)
      → s ≡ in_position
      → t.status ≡ in_position
      → ((reconcile_status N s t f).next.status ≡ closed) ↔ (pos_matches t f.position ≡ false)
  unfolding reconcile_status reconcile_in_position
  status-closes in_position h k = if-closes (pos_matches t f.position) k
  status-closes pending_entry h k = ground arith
  status-closes closed h k = ground arith
  status-closes canceled h k = ground arith
  status-closes invalidated h k = ground arith

  status-terminal :
      (s : ThreadStatus)
      → s ≢ pending_entry
      → s ≢ in_position
      → reconcile_status N s t f ≡ unchanged t
  unfolding reconcile_status
  status-terminal pending_entry h k = ground arith
  status-terminal in_position h k = ground arith
  status-terminal closed h k = refl
  status-terminal canceled h k = refl
  status-terminal invalidated h k = refl

  check_stop-attention : (check_stop N t f).next.attention ≡ (
      if is_runtime_owned t.attention
      then t.attention
      else if is_some t.stop_price && not (any (is_stop_of N t) f.open_orders)
      then some protection_missing
      else none)
  unfolding check_stop
  check_stop-attention = ground (arith, is_missing-eq t.attention, is_some-eq t.attention)

  status-protection :
      (s : ThreadStatus)
      → s ≡ in_position
      → pos_matches t f.position ≡ true
      → (reconcile_status N s t f).next.attention ≡ (
          if is_runtime_owned t.attention
          then t.attention
          else if is_some t.stop_price && not (any (is_stop_of N t) f.open_orders)
          then some protection_missing
          else none)
  unfolding reconcile_status reconcile_in_position
  status-protection in_position h k = rw (k, check_stop-attention)
  status-protection pending_entry h k = ground arith
  status-protection closed h k = ground arith
  status-protection canceled h k = ground arith
  status-protection invalidated h k = ground arith

  -- One pass over a pending thread puts it in position, opened at the time of the facts, and then
  -- the entry order has filled and the position has the thread's side; or it leaves the status; or
  -- it cancels the thread, and then the order was found canceled, expired or rejected and no
  -- position has the thread's side. An order that cannot be found never cancels.
  pub reconcile_thread-pending :
      t.status ≡ pending_entry → Moves (reconcile_thread N t f) f.entry_order f.position
  unfolding reconcile_thread
  reconcile_thread-pending h = status-Moves t.status h

  -- One pass over a thread in position closes it exactly when no position has its side.
  pub reconcile_thread-closes :
      t.status ≡ in_position
      → ((reconcile_thread N t f).next.status ≡ closed) ↔ (pos_matches t f.position ≡ false)
  unfolding reconcile_thread
  reconcile_thread-closes h = status-closes t.status h h

  -- A closed, canceled or invalidated thread stays as it is.
  pub reconcile_thread-terminal :
      t.status ≢ pending_entry → t.status ≢ in_position → reconcile_thread N t f ≡ unchanged t
  unfolding reconcile_thread
  reconcile_thread-terminal h k = status-terminal t.status h k

  -- The flag that a pass leaves on a thread that stays in position: the flags of the runtime stay,
  -- and otherwise it says that protection is missing exactly when the thread has a stop price and no
  -- open order is its stop.
  reconcile_thread-protection :
      t.status ≡ in_position
      → pos_matches t f.position ≡ true
      → (reconcile_thread N t f).next.attention ≡ (
          if is_runtime_owned t.attention
          then t.attention
          else if is_some t.stop_price && not (any (is_stop_of N t) f.open_orders)
          then some protection_missing
          else none)
  unfolding reconcile_thread
  reconcile_thread-protection h k = status-protection t.status h k
