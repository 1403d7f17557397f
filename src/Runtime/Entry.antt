-- ===== src/Runtime/Entry.antt =====
-- `executeOpen` of runtime.ts. A call of the backend that throws where the source does not catch it
-- is left out, and so is the reading of the account at the end.
pub mod Said
pub mod Answers
pub mod Fate
pub mod Guarded
use trade_gate.Prelude.{
  ℕ, ◌+◌, ◌-◌, ◌%◌, Bool, true, false, not, ◌&&◌, ◌||◌, Option, none, some, String, List, [], ◌∷◌,
  ◌++◌, any, filter, length, leb, contains, ◌==◌, string_eq, option_eq, if◌then◌else◌, get_elem?,
}
use Prim.Native.String.{◌++◌ as str_append}
use trade_gate.Dict
use trade_gate.Numbers.{Numbers}
use trade_gate.Graph.Types.{ThreadStatus, pending_entry, in_position, canceled, status_eq}
use trade_gate.Threads.Types.{
  Direction, EntryType, market, limit, StrategyThread, ThreadSource, agent, manual, chat, Attention,
  order_unknown as attention_unknown,
}
use trade_gate.Threads.Facts.{OrderStatusView, OrderStatus, filled as status_filled, is_dead}
use trade_gate.Threads.Opening.{Blocker, opening_blockers}
use trade_gate.Gates.Types.{Proposal, GateConfig}
use trade_gate.Gates.Sizing.{SymbolRules, SizingOptions, Sized, compute_sizing}
use trade_gate.Runtime.World.{
  World, Others, OrderReceipt, OrderOutcome, order_filled, order_submitted, order_failed,
  order_unknown, outcome_eq, AlgoOutcome, skipped, sent, AlgoLegReceipt, OpenWithProtectionReceipt,
  Leg, entry_leg, open_with_protection_leg, entry_reconcile_leg, DemoIntent, IntentStatus, approved,
  rejected, submitted, filled, failed, unknown, save_thread, thread_or, save_intent, Ids,
  next_leg_cid, e_leg, s_leg, t_leg, given_text,
}
use trade_gate.Runtime.Stops.{ErrorTexts, Placed, Replies, Times}
use trade_gate.Runtime.Protection.{place_protection}
use trade_gate.Runtime.Preflight.{
  OpenBlocker, Market, preflight_open, Abort, blocked_again, sizing_refused, sizing_unavailable,
  halted_now, leverage_failed, margin_failed, EntryRequest, Call, leverage_call, margin_call,
  order_call, entry_call, protected_entry_call, Made, Done, OrderAnswer, order, order_threw,
  EntryReplies, EntryTimes, Ending, aborted, stays_unknown, entry_failed, entry_filled,
  entry_submitted, refused, Run, calls, waits_for, sets_intent, sets_thread,
}
use trade_gate.Runtime.Sending.{
  Entered, Opening, abort, adds_answer, adds_leg, answered_outcome, bumped, close_submission,
  enter_alone, enter_protected, error_text, is_absent, is_market, leg_receipt, or_text, request_of,
  resolved_outcome, tp_choice, with_price,
}

module _ (E : ErrorTexts) (ids : Ids) where
  -- The protection of a filled entry, with the legs that came with it.
  unfoldable pub protects : EntryReplies → Opening → Entered → StrategyThread → Run → Run
  unfolding place_protection
  protects replies o entered t r = record r {
    world =
        (place_protection E ids o.times.protection t entered.stop entered.tp replies.protection
          r.world).0;
  }

  -- What each outcome leaves; `cur` is the thread as it was when the call returned.
  unfoldable pub conclude :
      Opening → StrategyThread → Entered → EntryReplies → OrderOutcome × Run → Ending × Run
  unfolding protects
  conclude o cur entered replies (order_unknown, r) =
      let i : DemoIntent = record r.intent {
        status = unknown;
        error = some "入场单状态不明,巡检继续按 clientOrderId 核对";
      } in
      let t : StrategyThread = record (bumped o.times cur) { attention = some attention_unknown } in
      (stays_unknown, sets_thread t (sets_intent o.episode i r))
  conclude o cur entered replies (order_failed, r) =
      let i : DemoIntent = record r.intent {
        status = failed;
        error = or_text entered.receipt.error "入场失败";
      } in
      let t : StrategyThread = record (bumped o.times cur) {
        status = canceled;
        closed_at = some o.times.ended;
        close_reason = some (str_append "入场失败:" (error_text entered.receipt.error));
      } in
      (entry_failed, sets_thread t (sets_intent o.episode i r))
  conclude o cur entered replies (order_filled, r) =
      let i : DemoIntent = record r.intent { status = filled } in
      let price = entered.receipt.avg_price in
      let t : StrategyThread = record (bumped o.times cur) {
        status = in_position;
        opened_at = some o.times.ended;
        filled_avg_price = elim price [ none ↦ replies.mark | some p ↦ some p ];
      } in
      (entry_filled, protects replies o entered t (sets_thread t (sets_intent o.episode i r)))
  conclude o cur entered replies (order_submitted, r) =
      let i : DemoIntent = record r.intent { status = submitted } in
      (entry_submitted, sets_thread (bumped o.times cur) (sets_intent o.episode i r))

  -- From the call's return on.
  unfoldable pub after_entry : Opening → EntryReplies → Entered × Run → Ending × Run
  unfolding close_submission resolved_outcome conclude
  after_entry o replies (entered, r) =
      let closed = close_submission o r in
      let cur = thread_or o.thread closed.world in
      conclude o cur entered replies (resolved_outcome entered.receipt.outcome replies closed)

  -- The entry is sent: with its protection where the backend can, and alone where not.
  unfoldable pub enter : (can_protect : Bool) → Opening → EntryReplies → Run → Ending × Run
  unfolding enter_alone enter_protected after_entry
  enter can_protect o replies r =
      let alone = after_entry o replies (enter_alone o replies r) in
      if can_protect && is_market o.thread.entry.type
      then elim (given_text o.thread.stop_price) [
        | none ↦ alone
        | some price ↦ after_entry o replies (enter_protected ids o price replies r)
      ]
      else alone

module _ (N : Numbers) (cfg : GateConfig N) (wording : Abort → String) where
  open N use {of_text, lt, least}

  -- The proposal that is sized again, at the thread's fixed quantity.
  abbrev proposal_of : StrategyThread → Proposal
  proposal_of t = record {
    direction = t.side;
    entry = t.entry.type;
    limit_price = t.entry.price;
    stop_price = elim t.stop_price [ none ↦ "0" | some s ↦ s ];
    take_profit_price = none;
  }

  -- The quantity that was approved still fits, at the lower of the two risks.
  unfoldable pub still_fits : Opening → DemoIntent → World → String → String × SymbolRules → Bool
  unfolding compute_sizing
  still_fits o i w equity (mark, rules) =
      let risk = least (of_text i.sizing.risk_pct) (of_text w.risk_pct) in
      (compute_sizing N (proposal_of o.thread) equity mark rules (record cfg { risk_pct = risk })
        (record { liquidity_notional_cap = none; fixed_qty = some o.thread.qty })).ok

  -- The check of the quantity, for an intent that was sized by risk.
  unfoldable pub sizing_abort : Opening → EntryReplies → Run → Option Abort
  unfolding still_fits
  sizing_abort o replies r =
      if lt (of_text "0") (of_text r.intent.sizing.risk_pct)
      then elim replies.sizing_data [
        | none ↦ some sizing_unavailable
        | some found ↦
            if still_fits o r.intent r.world replies.equity found then none else some sizing_refused
      ]
      else none

  -- The wait for the sizing's data, for the same intents.
  abbrev pub waits_for_sizing : EntryReplies → Run → Run
  waits_for_sizing replies r =
      if lt (of_text "0") (of_text r.intent.sizing.risk_pct)
      then waits_for replies.after_sizing r
      else r

  module _ (E : ErrorTexts) (ids : Ids) (can_protect : Bool) where
    -- From the leverage on.
    unfoldable pub prepare : Opening → EntryReplies → Run → Ending × Run
    unfolding abort enter
    prepare o replies r0 =
        let r1 = calls leverage_call replies.after_leverage r0 in
        let r2 = calls margin_call replies.after_margin r1 in
        if not replies.leverage.ok
        then abort wording o (leverage_failed replies.leverage.error) r1
        else if not replies.margin.ok
        then abort wording o (margin_failed replies.margin.error) r2
        else if r2.world.halted
        then abort wording o halted_now r2
        else enter E ids can_protect o replies r2

    unfoldable pub check_sizing : Opening → EntryReplies → Run → Ending × Run
    unfolding sizing_abort prepare abort
    check_sizing o replies r =
        let waited = waits_for_sizing replies r in
        elim (sizing_abort o replies waited) [
          | some why ↦ abort wording o why waited
          | none ↦ prepare o replies waited
        ]

    -- What the blockers lead to.
    unfoldable pub checked : List OpenBlocker → Opening → EntryReplies → Run → Ending × Run
    unfolding check_sizing abort
    checked [] o replies r = check_sizing o replies r
    checked (b ∷ bs) o replies r = abort wording o (blocked_again (b ∷ bs)) r

    -- The last look before the sending.
    unfoldable pub check_again : Opening → EntryReplies → Run → Ending × Run
    unfolding checked preflight_open
    check_again o replies r =
        let waited = waits_for replies.after_account r in
        checked (preflight_open o.thread.symbol o.thread.id replies.account waited.world) o replies
          waited

    unfoldable pub opening_of : Option String → EntryTimes → StrategyThread → Opening
    unfolding next_leg_cid
    opening_of ep c t =
        let (cid, minted) = next_leg_cid ids t e_leg in
        record { thread = t; cid = cid; minted = minted; episode = ep; times = c }

    -- The client id is saved before anything is sent.
    unfoldable pub reserve : Opening → DemoIntent → World → Run
    reserve o i w =
        let t : StrategyThread = record o.minted {
          entry_client_order_id = some o.cid;
          entry_submitting_since = some o.times.submitting;
          entry_submitted_at = none;
          version = o.thread.version + 1;
          updated_at = o.times.updated;
        } in
        let approved_intent : DemoIntent = record i {
          status = approved;
          client_order_id = some o.cid;
        } in
        sets_intent o.episode approved_intent
          (record { world = save_thread t w; intent = i; made = [] })

    abbrev pub awaits_entry : StrategyThread → Bool
    awaits_entry t = t.status == pending_entry && is_absent (given_text t.entry_client_order_id)

    unfoldable pub execute_open :
        StrategyThread
        → DemoIntent
        → Option String
        → EntryTimes
        → EntryReplies
        → World
        → Ending × Run
    unfolding check_again opening_of reserve
    execute_open thread i ep c replies w =
        let t = thread_or thread w in
        let o = opening_of ep c t in
        if awaits_entry t
        then check_again o replies (reserve o i w)
        else (refused, record { world = w; intent = i; made = [] })
