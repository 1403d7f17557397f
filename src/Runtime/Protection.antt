-- ===== src/Runtime/Protection.antt =====
-- `placeProtection` of runtime.ts: the stop and the take profit of a thread that is in position, and
-- the way out when the stop is not placed.
pub mod Stored
pub mod Answers
pub mod Ends
pub mod Safe
use trade_gate.Prelude.{
  ℕ, ◌+◌, ◌-◌, Bool, true, false, not, ◌&&◌, ◌||◌, Option, none, some, String, List, [], ◌∷◌, ◌++◌,
  filter, any, ltb, leb, contains, ◌==◌, string_eq, if◌then◌else◌, get_elem?, option_eq, codes,
  reverse, nat_eq,
}
use trade_gate.Dict
use trade_gate.Graph.Types.{ThreadStatus, in_position, closed, status_eq}
use trade_gate.Threads.Types.{
  StrategyThread, Attention, protection_missing, close_failed, entry_remainder,
}
use trade_gate.Threads.Facts.{OrderStatusView, is_dead}
use trade_gate.Workflow.Texts.{is_digit}
use trade_gate.Runtime.World.{
  World, Others, OrderReceipt, OrderOutcome, order_filled, order_submitted, order_failed,
  order_unknown, outcome_eq, save_thread, thread_or, Ids, next_leg_cid, LegCode, s_leg, t_leg,
  x_leg, filled, given_text, resolve_open_intents,
}
use trade_gate.Runtime.Stops.{
  CloseReply, ErrorTexts, Going, Lookup, Placed, Replies, Sent, StopFate, Times, after_digits,
  answered, as_submitted, by_algo_id, by_order, close_sent, doubted, is_none, is_remainder,
  is_take_profit_id, looked_up, lookup_failed, outcome_is, resent, seen_of, standing, stop_fate,
  stop_sent, take_profit_sent, uncertain, waits,
}

-- The thread's own copy is saved over what others may have made of it.
unfoldable pub missing : Times → Going → Going
missing c g =
    let t = g.thread in
    let next : StrategyThread = record t {
      attention = some protection_missing;
      version = t.version + 1;
      updated_at = c.updated;
    } in
    record g { world = save_thread next g.world }

-- What follows the answer to the closing order.
unfoldable pub flattened : Times → CloseReply → Going → Going
flattened c reply g =
    let t = g.thread in
    let done : StrategyThread = record t {
      status = closed;
      closed_at = some c.ended;
      close_reason = some "止损单失败,补偿平仓";
      attention = none;
      version = t.version + 1;
      updated_at = c.updated;
    } in
    let stuck : StrategyThread = record t {
      attention = some close_failed;
      version = t.version + 1;
      updated_at = c.updated;
    } in
    if reply.closed && is_none (given_text reply.error)
    then record g { world = resolve_open_intents t filled (save_thread done g.world) }
    else record g { world = save_thread stuck g.world }

-- The stop is not there: the position is closed at once.
unfoldable pub compensate : Ids → Times → Replies → Going → Going
unfolding flattened
compensate ids c replies g =
    let (cid, t) = next_leg_cid ids g.thread x_leg in
    let minted : Going = record g { thread = t; world = save_thread t g.world } in
    flattened c replies.close (waits (close_sent cid) replies.after_close minted)

-- The end of the method: the legs that stand.
unfoldable pub protected : Times → List String → Going → Going
protected c legs g =
    let t = thread_or g.thread g.world in
    let next : StrategyThread = record t {
      protection_client_order_ids = legs;
      attention = if is_remainder t.attention then some entry_remainder else none;
      version = t.version + 1;
      updated_at = c.updated;
    } in
    record g { world = save_thread next g.world }

abbrev pub stands : OrderReceipt → Bool
stands r = not (outcome_is order_failed r) && not (outcome_is order_unknown r)

-- The leg's id and the thread that counts it: those of the leg that was placed with the entry, or a
-- new one.
unfoldable pub leg_of : Ids → Option Placed → LegCode → StrategyThread → String × StrategyThread
leg_of ids none leg t = next_leg_cid ids t leg
leg_of ids (some placed) leg t = (placed.id, t)

-- The receipt of a leg, which is sent unless it was placed with the entry.
unfoldable pub leg_reply :
    Option Placed → Sent → OrderReceipt → Others → Going → OrderReceipt × Going
leg_reply none s reply others g = (reply, waits s others g)
leg_reply (some placed) s reply others g = (placed.receipt, g)

-- The take profit, where none of the thread's legs is one.
unfoldable pub place_take_profit :
    Ids → Times → Option Placed → Replies → List String → Going → Going
unfolding protected leg_of leg_reply
place_take_profit ids c placed replies legs g =
    let t0 = g.thread in
    elim (given_text (get_elem? t0.take_profits 0)) [
      | none ↦ protected c legs g
      | some price ↦
          if any is_take_profit_id legs
          then protected c legs g
          else let (cid, t) = leg_of ids placed t_leg t0 in
            let minted : Going = record g { thread = t; world = save_thread t g.world } in
            let (r, after) =
              leg_reply placed (take_profit_sent cid price) replies.take_profit
                replies.after_take_profit minted in
            protected c (if stands r then legs ++ cid ∷ [] else legs) after
    ]

module _ (E : ErrorTexts) (ids : Ids) (c : Times) where
  -- What the stop's fate leads to.
  unfoldable pub after_fate :
      (cid : String) → Option Placed → Replies → List String → StopFate × Going → Going
  unfolding missing compensate standing place_take_profit
  after_fate cid tp replies legs (uncertain, g) = missing c g
  after_fate cid tp replies legs (answered r, g) =
      if stands (standing E r)
      then place_take_profit ids c tp replies (legs ++ cid ∷ []) g
      else compensate ids c replies g

  unfoldable pub place_stop :
      (price : String) → Option Placed → Option Placed → Replies → List String → Going → Going
  unfolding after_fate leg_of leg_reply stop_fate
  place_stop price stop tp replies legs g =
      let (cid, t) = leg_of ids stop s_leg g.thread in
      let minted : Going = record g { thread = t; world = save_thread t g.world } in
      let (first, after) =
        leg_reply stop (stop_sent cid price) replies.stop replies.after_stop minted in
      after_fate cid tp replies legs (stop_fate E cid price first replies after)

  abbrev is_placed : Option Placed → String → Bool
  is_placed none id = false
  is_placed (some placed) id = placed.id == id

  -- The body behind the guards.
  unfoldable pub place_legs : Option Placed → Option Placed → Replies → Going → Going
  unfolding place_stop place_take_profit
  place_legs stop tp replies g =
      let legs =
        filter (λ id. not (is_placed stop id) && not (is_placed tp id))
          g.thread.protection_client_order_ids in
      elim (given_text g.thread.stop_price) [
        | none ↦ place_take_profit ids c tp replies legs g
        | some price ↦ place_stop price stop tp replies legs g
      ]

  abbrev pub last_retry : String → World → ℕ
  last_retry id w = elim (Dict.get id w.retried) [ none ↦ 0 | some at ↦ at ]

  -- What the source asks before it does anything.
  unfoldable pub may_protect : StrategyThread → World → Bool
  may_protect t w =
      t.status == in_position && not w.halted && leb (last_retry t.id w + 60_000) c.checked

  unfoldable pub place_protection :
      StrategyThread → Option Placed → Option Placed → Replies → World → World × List Sent
  unfolding may_protect place_legs
  place_protection t stop tp replies w =
      let begun : World = record w { retried = Dict.set t.id c.retried w.retried } in
      let g =
        place_legs stop tp replies
          (record { world = begun; thread = thread_or t begun; sent = [] }) in
      if may_protect t w then (g.world, g.sent) else (w, [])
