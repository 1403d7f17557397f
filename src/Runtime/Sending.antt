-- ===== src/Runtime/Sending.antt =====
-- The sending of an entry (`executeOpen` of runtime.ts): giving up, the call, and its outcome.
use trade_gate.Prelude.{
  ◌+◌, Bool, true, false, Option, none, some, String, [], ◌∷◌, ◌++◌, string_eq, option_eq,
  if◌then◌else◌, get_elem?,
}
use trade_gate.Graph.Types.{canceled, status_eq}
use trade_gate.Threads.Types.{EntryType, market, limit, StrategyThread}
use trade_gate.Threads.Facts.{OrderStatus, filled as status_filled, is_dead}
use trade_gate.Runtime.World.{
  OrderReceipt, OrderOutcome, order_filled, order_submitted, order_failed, order_unknown,
  outcome_eq, skipped, sent, AlgoLegReceipt, Leg, entry_leg, open_with_protection_leg,
  entry_reconcile_leg, DemoIntent, rejected, thread_or, Ids, next_leg_cid, s_leg, t_leg, given_text,
}
use trade_gate.Runtime.Stops.{Placed}
use trade_gate.Runtime.Preflight.{
  Abort, EntryRequest, order_call, entry_call, protected_entry_call, OrderAnswer, order,
  order_threw, EntryReplies, EntryTimes, Ending, aborted, Run, calls, waits_for, sets_intent,
  sets_thread,
}

-- What stays the same during an entry: its thread as it was, its client id, the thread as it counts
-- that id, the episode, and the readings of the clock.
pub record Opening : Type 0 where
  pub thread : StrategyThread
  pub cid : String
  pub minted : StrategyThread
  pub episode : Option String
  pub times : EntryTimes

module _ (wording : Abort → String) where
  -- `abort`
  unfoldable pub abort : Opening → Abort → Run → Ending × Run
  abort o why r =
      let i : DemoIntent = record r.intent { status = rejected; error = some (wording why) } in
      let told = sets_intent o.episode i r in
      let t : StrategyThread = record (thread_or o.thread told.world) {
        status = canceled;
        entry_client_order_id = none;
        closed_at = some o.times.ended;
        close_reason = some (wording why);
        version = o.thread.version + 2;
        updated_at = o.times.updated;
      } in
      (aborted why, sets_thread t told)

-- The entry's request.
abbrev pub request_of : Opening → EntryRequest
request_of o = record {
  symbol = o.thread.symbol;
  direction = o.thread.side;
  qty = o.thread.qty;
  entry = o.thread.entry.type;
  limit_price = o.thread.entry.price;
  client_order_id = o.cid;
}

abbrev pub or_text : Option String → String → Option String
or_text none s = some s
or_text (some x) s = some x

-- `tp ? a : b`, by the price of the take profit.
abbrev pub tp_choice {ℓ} : {A : Type ℓ} → Option String → A → A → A
tp_choice none a b = b
tp_choice (some price) a b = a

abbrev pub with_price : Option String → String → Option (String × String)
with_price none cid = none
with_price (some price) cid = some (price, cid)

-- The receipt that stands for a leg that came with the entry.
unfoldable pub leg_receipt : AlgoLegReceipt → OrderReceipt
leg_receipt leg = elim leg.outcome [
  | skipped ↦ record {
    outcome = order_failed;
    avg_price = none;
    error = or_text leg.error "保护腿未发送";
  }
  | sent order_filled ↦ record {
    outcome = order_failed;
    avg_price = none;
    error = or_text leg.error "保护腿已触发,不再是活动止损";
  }
  | sent o ↦ record { outcome = o; avg_price = none; error = leg.error }
]

-- What the entry's call leaves: its receipt and the legs that came with it.
pub record Entered : Type 0 where
  pub receipt : OrderReceipt
  pub stop : Option Placed
  pub tp : Option Placed

abbrev pub adds_leg : Leg → Run → Run
adds_leg l r = record r { intent = record r.intent { receipts = r.intent.receipts ++ l ∷ [] } }

unfoldable pub enter_alone : Opening → EntryReplies → Run → Entered × Run
enter_alone o replies r = (
  record { receipt = replies.entry; stop = none; tp = none },
  adds_leg (entry_leg replies.entry) (calls (entry_call (request_of o)) replies.after_entry r),
)

-- The entry with its stop, and its take profit where there is one, in one call.
unfoldable pub enter_protected :
    Ids → Opening → (stop_price : String) → EntryReplies → Run → Entered × Run
unfolding next_leg_cid leg_receipt
enter_protected ids o stop_price replies r =
    let stop = next_leg_cid ids (thread_or o.minted r.world) s_leg in
    let tp = next_leg_cid ids stop.1 t_leg in
    let price = given_text (get_elem? o.thread.take_profits 0) in
    let legs = tp_choice price (stop.0 ∷ tp.0 ∷ []) (stop.0 ∷ []) in
    let counted = tp_choice price tp.1 stop.1 in
    let saved = sets_thread (record counted { protection_client_order_ids = legs }) r in
    let call = protected_entry_call (request_of o) stop_price stop.0 (with_price price tp.0) in
    let c = replies.combined in
    (
      record {
        receipt = c.entry;
        stop = some (record { id = stop.0; receipt = leg_receipt c.stop });
        tp = tp_choice price (some (record { id = tp.0; receipt = leg_receipt c.tp })) none;
      },
      adds_leg (entry_leg c.entry)
          (adds_leg (open_with_protection_leg c) (calls call replies.after_entry saved)),
    )

-- `{ ...cur, version: cur.version + 1, updated_at }`
abbrev pub bumped : EntryTimes → StrategyThread → StrategyThread
bumped c t = record t { version = t.version + 1; updated_at = c.updated }

-- The call returned: the phase of submission is over.
unfoldable pub close_submission : Opening → Run → Run
close_submission o r =
    let t = thread_or o.thread r.world in
    let next : StrategyThread = record (bumped o.times t) {
      entry_submitting_since = none;
      entry_submitted_at = some o.times.submitted_at;
    } in
    sets_thread next r

-- What the status of an order makes of an unknown outcome, and what the exchange's answer does.
unfoldable pub status_outcome : OrderStatus → OrderOutcome
status_outcome status_filled = order_filled
status_outcome s = if is_dead s then order_failed else order_submitted

unfoldable pub answered_outcome : OrderAnswer → OrderOutcome
unfolding status_outcome
answered_outcome order_threw = order_unknown
answered_outcome (order none) = order_unknown
answered_outcome (order (some o)) = status_outcome o.status

abbrev pub adds_answer : OrderAnswer → Run → Run
adds_answer order_threw r = r
adds_answer (order o) r = adds_leg (entry_reconcile_leg o) r

-- An unknown outcome is asked for once, after a pause.
unfoldable pub resolved_outcome : OrderOutcome → EntryReplies → Run → OrderOutcome × Run
unfolding answered_outcome
resolved_outcome order_unknown replies r =
    let asked = calls order_call replies.after_order (waits_for replies.after_pause r) in
    (answered_outcome replies.order_answer, adds_answer replies.order_answer asked)
resolved_outcome outcome replies r = (outcome, r)

abbrev pub is_market : EntryType → Bool
is_market market = true
is_market limit = false

abbrev pub is_absent : Option String → Bool
is_absent none = true
is_absent (some s) = false

abbrev pub error_text : Option String → String
error_text none = "null"
error_text (some s) = s
