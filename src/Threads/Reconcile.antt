-- ===== src/Threads/Reconcile.antt =====
-- `reconcileThread` of threads.ts.
pub mod Invariants
pub mod Causes
use Prim.Native.String.{◌++◌ as str_append}
use trade_gate.Prelude.{
  ℕ, ◌+◌, Bool, true, false, not, ◌&&◌, ◌||◌, Option, none, some, String, List, [], ◌∷◌, ltb, leb,
  ◌==◌, string_eq, if◌then◌else◌, any, contains,
}
use trade_gate.Numbers.{Numbers}
use trade_gate.Graph.Types.{ThreadStatus, pending_entry, in_position, closed, canceled}
use trade_gate.Threads.Types.{
  Direction, long, short, direction_eq, Attention, external_position, order_unknown,
  protection_missing, entry_remainder, halt_incomplete, close_failed, StrategyThread,
}
use trade_gate.Threads.Facts.{
  OrderStatus, status_text, OrderStatusView, EntryOrder, unqueried, gone, found, PositionView,
  OpenOrderView, ThreadFacts, EventKind, entry_filled, closed_event, attention_event,
  attention_cleared, canceled_event, ReconcileResult, within_submit_grace, pos_matches, bump,
  unchanged, changed_to, or_else, is_some, is_truthy, is_external, is_order_unknown, is_missing,
  is_runtime_owned, is_partial, is_filled, is_dead,
}

-- A position on the symbol that the entry order does not explain.
unfoldable pub unexplained_position : StrategyThread → ThreadFacts → ReconcileResult
unfolding within_submit_grace pos_matches unchanged changed_to
unexplained_position t f =
    if pos_matches t f.position && within_submit_grace t f.now
    then unchanged t
    else if is_external t.attention
    then unchanged t
    else changed_to t f (record t { attention = some external_position }) (attention_event ∷ [])

-- The entry order cannot be found.
unfoldable pub order_gone : StrategyThread → ThreadFacts → ReconcileResult
unfolding within_submit_grace unchanged changed_to
order_gone t f =
    let missed = record t { entry_lookup_misses = t.entry_lookup_misses + 1 } in
    if within_submit_grace t f.now
    then unchanged t
    else if is_order_unknown t.attention
    then changed_to t f missed []
    else changed_to t f (record missed { attention = some order_unknown }) (attention_event ∷ [])

-- The entry order is there and has not filled.
unfoldable pub order_found : StrategyThread → ThreadFacts → OrderStatusView → ReconcileResult
unfolding pos_matches unchanged changed_to
order_found t f order =
    if is_dead order.status && not (pos_matches t f.position)
    then changed_to t f
        (record t {
          status = canceled;
          closed_at = some f.now;
          close_reason =
              or_else t.close_reason (some (str_append "入场单 " (status_text order.status)));
          attention = none;
        })
        (canceled_event ∷ [])
    else if is_order_unknown t.attention
    then changed_to t f (record t { attention = none; entry_lookup_misses = 0 })
        (attention_cleared ∷ [])
    else unchanged t

-- The position of a thread in position is gone.
unfoldable pub position_gone : StrategyThread → ThreadFacts → ReconcileResult
unfolding changed_to
position_gone t f =
    changed_to t f
      (record t {
        status = closed;
        closed_at = some f.now;
        close_reason = or_else t.close_reason (some "持仓已在交易所侧平掉(止损/止盈触发或手动)");
        attention = none;
      })
      (closed_event ∷ [])

module _ (N : Numbers) where
  open N use {of_text, lt, sub, div, abs}

  -- `Number(text) > 0`
  abbrev pub is_positive : String → Bool
  is_positive s = lt (of_text "0") (of_text s)

  -- The entry filled and the position is there.
  unfoldable pub fill_entry :
      StrategyThread → ThreadFacts → OrderStatusView → PositionView → ReconcileResult
  unfolding changed_to
  fill_entry t f order position =
      changed_to t f
        (record t {
          status = in_position;
          opened_at = some f.now;
          filled_avg_price = or_else order.avg_price (some position.entry_price);
          qty =
              if is_partial order.status && is_positive order.executed_qty
              then order.executed_qty
              else t.qty;
          attention = if is_partial order.status then some entry_remainder else none;
        })
        (entry_filled ∷ [])

  -- The branch of `pending_entry` behind its first two tests.
  unfoldable pub pending_lookup : StrategyThread → ThreadFacts → EntryOrder → ReconcileResult
  unfolding order_gone order_found unchanged
  pending_lookup t f unqueried = unchanged t
  pending_lookup t f gone =
      if is_truthy t.entry_client_order_id then order_gone t f else unchanged t
  pending_lookup t f (found order) =
      if is_truthy t.entry_client_order_id then order_found t f order else unchanged t

  -- The branch of `pending_entry` where the order has not filled, or no position explains it.
  unfoldable pub pending_rest : StrategyThread → ThreadFacts → Bool → ReconcileResult
  unfolding unexplained_position pending_lookup
  pending_rest t f order_filled =
      if not order_filled && is_some f.position && is_truthy t.entry_client_order_id
      then unexplained_position t f
      else pending_lookup t f f.entry_order

  unfoldable pub reconcile_pending :
      StrategyThread → ThreadFacts → EntryOrder → Option PositionView → ReconcileResult
  unfolding fill_entry pending_rest
  reconcile_pending t f (found order) (some position) =
      if is_filled order.status && position.side == t.side
      then fill_entry t f order position
      else pending_rest t f (is_filled order.status)
  reconcile_pending t f (found order) none = pending_rest t f (is_filled order.status)
  reconcile_pending t f _ _ = pending_rest t f false

  -- An open order that is this thread's stop: by its id, or within half a percent of the price.
  unfoldable pub is_stop_of : StrategyThread → OpenOrderView → Bool
  is_stop_of t o =
      let want = of_text (elim t.stop_price [ none ↦ "0" | some s ↦ s ]) in
      o.reduce_only
      && (o.type == "STOP_MARKET" || o.type == "STOP")
      && o.side == (elim t.side [ long ↦ "SELL" | short ↦ "BUY" ])
      && (contains o.client_order_id t.protection_client_order_ids
          || lt (of_text "0") want && elim o.stop_price [
            | none ↦ false
            | some s ↦ lt (div (abs (sub (of_text s) want)) want) (of_text "0.005")
          ])

  -- The position is there.
  unfoldable pub check_stop : StrategyThread → ThreadFacts → ReconcileResult
  unfolding unchanged changed_to
  check_stop t f =
      let missing = is_some t.stop_price && not (any (is_stop_of t) f.open_orders) in
      if is_runtime_owned t.attention
      then unchanged t
      else if missing
      then (if is_missing t.attention
          then unchanged t
          else changed_to t f (record t { attention = some protection_missing })
              (attention_event ∷ []))
      else if is_some t.attention
      then changed_to t f (record t { attention = none }) (attention_cleared ∷ [])
      else unchanged t

  unfoldable pub reconcile_in_position : StrategyThread → ThreadFacts → ReconcileResult
  unfolding position_gone check_stop pos_matches
  reconcile_in_position t f =
      if not (pos_matches t f.position) then position_gone t f else check_stop t f

  unfoldable pub reconcile_status : ThreadStatus → StrategyThread → ThreadFacts → ReconcileResult
  unfolding reconcile_pending reconcile_in_position unchanged
  reconcile_status pending_entry t f = reconcile_pending t f f.entry_order f.position
  reconcile_status in_position t f = reconcile_in_position t f
  reconcile_status _ t f = unchanged t

  unfoldable pub reconcile_thread : StrategyThread → ThreadFacts → ReconcileResult
  unfolding reconcile_status
  reconcile_thread t f = reconcile_status t.status t f
