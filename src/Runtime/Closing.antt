-- ===== src/Runtime/Closing.antt =====
-- `newIntent`, `cancelEntry`, `closeThreadNow` and `closeThread` of runtime.ts, without the reading
-- of the account at their end.
pub mod Proven
use trade_gate.Prelude.{
  ℕ, ◌+◌, Bool, true, false, not, ◌&&◌, ◌||◌, Option, none, some, String, List, [], ◌∷◌, ◌++◌,
  contains, ◌==◌, string_eq, if◌then◌else◌,
}
use trade_gate.Dict
use trade_gate.Graph.Types.{ThreadStatus, pending_entry, closed, canceled, status_eq}
use trade_gate.Threads.Types.{
  Backend, EntryType, market, StrategyThread, Attention, other, close_failed,
}
use trade_gate.Threads.Opening.{is_open}
use trade_gate.Runtime.World.{
  World, Others, Sizing, DemoIntent, IntentStatus, pending_approval, approved, filled, failed,
  close_kind, Principal, agent_principal, user_principal, Leg, close_leg, save_thread, save_intent,
  Ids, next_leg_cid, x_leg, given_text,
}
use trade_gate.Runtime.Stops.{CloseReply}
use trade_gate.Runtime.Preflight.{Done}

-- The replies of the backend, each with what other handlers do until it comes; `fresh` has the
-- symbols of a fresh account's positions.
pub record ClosingReplies : Type 0 where
  pub cancel : Done
  pub after_cancel : Others
  pub cancel_all : Done
  pub after_cancel_all : Others
  pub close : CloseReply
  pub realized_pnl : Option String
  pub avg_price : Option String
  pub after_close : Others
  pub fresh : List String
  pub after_fresh : Others

-- What the handler knows besides the shared state: the account's position on the symbol and its
-- equity, the last mark, the drawn id of an intent, and the readings of the clock.
pub record ClosingFacts : Type 0 where
  pub held_qty : Option String
  pub equity : Option String
  pub mark : Option String
  pub intent_id : String
  pub backend : Backend
  pub episode : Option String
  pub now : ℕ
  pub ended : ℕ
  pub updated : ℕ

abbrev or_else_text : Option String → String → String
or_else_text none s = s
or_else_text (some x) s = x

abbrev or_else_option : Option String → Option String → Option String
or_else_option none o = o
or_else_option (some x) o = some x

-- `if (t) this.saveThread({ ...t, intent_ids: [...t.intent_ids, intent.id] })`
abbrev lists_intent : String → String → World → World
lists_intent thread_id intent_id w = elim (Dict.get thread_id w.threads) [
  | none ↦ w
  | some t ↦ save_thread (record t { intent_ids = t.intent_ids ++ intent_id ∷ [] }) w
]

-- `newIntent`
unfoldable pub new_intent : DemoIntent → Option String → StrategyThread → World → World
new_intent i ep t w = lists_intent t.id i.id (save_intent ep i w)

-- The intent of a closing, as `newIntent` makes it.
unfoldable pub closing_intent : ClosingFacts → StrategyThread → DemoIntent
closing_intent f t = record {
  id = f.intent_id;
  episode_id = or_else_text f.episode "";
  thread_id = some t.id;
  principal = elim f.episode [ none ↦ user_principal | some _ ↦ agent_principal ];
  at = f.now;
  kind = close_kind;
  symbol = t.symbol;
  direction = t.side;
  quantity = or_else_text f.held_qty t.qty;
  entry = market;
  limit_price = none;
  stop_price = none;
  take_profit_price = none;
  sizing = record {
    equity = or_else_text f.equity "0";
    risk_pct = "0";
    risk_usdt = "0";
    stop_distance = "0";
    raw_qty = or_else_text f.held_qty t.qty;
    step_size = "0";
    note = "全部平仓";
  };
  status = pending_approval;
  client_order_id = none;
  backend = f.backend;
  receipts = [];
  error = none;
}

-- `{ ...t, version: t.version + 1, updated_at }`
abbrev bump : ClosingFacts → StrategyThread → StrategyThread
bump f t = record t { version = t.version + 1; updated_at = f.updated }

unfoldable pub cancel_now : ClosingFacts → String → StrategyThread → World → World
cancel_now f reason t w =
    let next : StrategyThread = record (bump f t) {
      status = canceled;
      closed_at = some f.ended;
      close_reason = some reason;
      attention = none;
    } in
    save_thread next w

unfoldable pub cancel_entry :
    ClosingFacts → String → ClosingReplies → StrategyThread → World → World
unfolding cancel_now
cancel_entry f reason replies t w =
    let kept : StrategyThread = record (bump f t) {
      attention = some (other "CANCEL_UNKNOWN");
      close_reason = some reason;
    } in
    elim (given_text t.entry_client_order_id) [
      | none ↦ cancel_now f reason t w
      | some cid ↦
          let after = replies.after_cancel w in
          if not replies.cancel.ok then save_thread kept after else cancel_now f reason t after
    ]

abbrev is_clean : CloseReply → Bool
is_clean r = elim (given_text r.error) [ none ↦ true | some _ ↦ false ]

-- `proven`, and the state after what was asked for it.
unfoldable pub prove_flat : String → ClosingReplies → World → Bool × World
prove_flat symbol replies w =
    if replies.close.closed && is_clean replies.close
    then (true, w)
    else if is_clean replies.close
    then (not (contains symbol replies.fresh), replies.after_fresh w)
    else (false, w)

-- The end of a closing, by the proof that the position is gone.
unfoldable pub end_closing :
    ClosingFacts → String → ClosingReplies → StrategyThread → DemoIntent → Bool × World → World
end_closing f reason replies t i (true, w) =
    let done : DemoIntent = record i { status = filled } in
    let next : StrategyThread = record (bump f t) {
      status = closed;
      closed_at = some f.ended;
      close_reason = some reason;
      realized_pnl = replies.realized_pnl;
      exit_price = or_else_option replies.avg_price f.mark;
      attention = none;
    } in
    save_thread next (save_intent f.episode done w)
end_closing f reason replies t i (false, w) =
    let undone : DemoIntent = record i {
      status = failed;
      error = some (or_else_text replies.close.error "平仓未被证实");
    } in
    let next : StrategyThread = record (bump f t) { attention = some close_failed } in
    save_thread next (save_intent f.episode undone w)

-- A closing on the exchange: the handler keeps the copy of the thread that it was given.
unfoldable pub close_position_of :
    Ids → ClosingFacts → String → ClosingReplies → StrategyThread → World → World
unfolding next_leg_cid new_intent closing_intent prove_flat end_closing
close_position_of ids f reason replies t0 w0 =
    let i0 = closing_intent f t0 in
    let (cid, t) = next_leg_cid ids t0 x_leg in
    let i1 : DemoIntent = record i0 { status = approved; client_order_id = some cid } in
    let w1 = save_intent f.episode i1 (save_thread t (new_intent i0 f.episode t0 w0)) in
    let w2 = replies.after_close (replies.after_cancel_all w1) in
    let leg = close_leg replies.close.closed replies.close.error in
    let i2 : DemoIntent = record i1 { receipts = leg ∷ [] } in
    end_closing f reason replies t i2 (prove_flat t.symbol replies w2)

unfoldable pub close_thread_now :
    Ids → ClosingFacts → String → ClosingReplies → StrategyThread → World → World
unfolding cancel_entry close_position_of
close_thread_now ids f reason replies t w =
    if t.status == pending_entry
    then cancel_entry f reason replies t w
    else close_position_of ids f reason replies t w

pub data CloseError : Type 0 where
  no_thread is_submitting : CloseError
  not_open : ThreadStatus → CloseError

abbrev is_being_sent : StrategyThread → Bool
is_being_sent t =
    t.status == pending_entry && elim t.entry_submitting_since [ none ↦ false | some _ ↦ true ]

-- What `closeThread` throws.
unfoldable pub close_error : Option StrategyThread → Option CloseError
close_error none = some no_thread
close_error (some t) =
    if not (is_open t)
    then some (not_open t.status)
    else if is_being_sent t
    then some is_submitting
    else none

unfoldable pub close_thread :
    Ids → ClosingFacts → String → ClosingReplies → String → World → World × Option CloseError
unfolding close_error close_thread_now
close_thread ids f reason replies id w = elim (Dict.get id w.threads) [
  | none ↦ (w, some no_thread)
  | some t ↦ elim (close_error (some t)) [
    | some e ↦ (w, some e)
    | none ↦ (close_thread_now ids f reason replies t w, none)
  ]
]
