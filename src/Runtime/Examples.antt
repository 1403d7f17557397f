-- ===== src/Runtime/Examples.antt =====
-- The theorems on the handlers of runtime.ts at a thread and an intent, with other handlers that do
-- nothing, and a backend that fills the entry and accepts its stop.
use trade_gate.Prelude.{arith}
use trade_gate.Prelude.{
  ◌≡◌, refl, true, false, Option, none, some, String, [], ◌∷◌, List, string_eq, option_eq, nat_eq,
}
use mathlib.Core.Bool.{decide}
use trade_gate.Prelude.{none≢some}
use trade_gate.Dict
use trade_gate.Numbers.{Numbers}
use trade_gate.Numbers.Whole.{look_up, whole}
use trade_gate.Graph.Types.{in_position, ThreadStatus-discrete}
use trade_gate.Threads.Types.{
  paper, long, chat, market, isolated, StrategyThread, NewThread, new_thread,
}
use trade_gate.Gates.Types.{GateConfig, default_gates}
use trade_gate.Runtime.World.{
  World, Others, OrderReceipt, order_filled, order_submitted, order_unknown, sent, DemoIntent,
  IntentStatus-discrete, pending_approval, open_kind, agent_principal, save_thread, save_intent,
  next_leg_cid, thread_or, Ids, given_text, s_leg, rejected,
}
use trade_gate.Runtime.Stops.{ErrorTexts, Replies, Times, by_algo_id}
use trade_gate.Runtime.Protection.{may_protect, leg_of, place_protection}
use trade_gate.Runtime.Protection.Stored.{IsKeyed, KeepsKeys, save_thread-IsKeyed, Stored}
use trade_gate.Runtime.Protection.Safe.{IsCovered, first_reply, place_protection-IsCovered}
use trade_gate.Runtime.Preflight.{Abort, EntryReplies, EntryTimes, order}
use trade_gate.Runtime.Entry.{opening_of, execute_open}
use trade_gate.Runtime.Entry.Said.{Fate}
use trade_gate.Runtime.Entry.Fate.{entry_receipt, execute_open-Fate}
use trade_gate.Runtime.Entry.Guarded.{AreGuarded, execute_open-guarded}
use trade_gate.Runtime.Approval.{
  IntentContent, agent_by, By, intent_is, gives, fails, waiting, waiting_intent, RejectTimes,
  IntentEvent, rejects, approves, runs, intent_run, reject_intent, ApproveTimes, IntentTimes,
  approve_intent, issue_intent_confirmation,
}
use trade_gate.Runtime.Closing.{ClosingReplies, ClosingFacts, close_thread, close_thread_now}
use trade_gate.Runtime.Closing.Proven.{Closes, close_thread-Closes}
use trade_gate.Runtime.Approval.Laws.{IsSound, approve_intent-IsSound}
use trade_gate.Runtime.Approval.Rejected.{reject_intent-final}
use trade_gate.Runtime.Approval.Over.{AreIntentsKeyed}

abbrev floats : Numbers
floats = whole (look_up (("0.5", 5) ∷ ("3", 3) ∷ ("5", 5) ∷ ("90", 90) ∷ ("100", 100) ∷ []))

abbrev input : NewThread
input = record {
  id = "t1";
  backend = some paper;
  symbol = "BTCUSDT";
  side = long;
  source = chat;
  timeframe = "1h";
  thesis = "up";
  invalidation_text = none;
  watch_conditions = [];
  entry = record { type = market; price = none; zone = none };
  stop_price = some "90";
  take_profits = "120" ∷ [];
  qty = "1";
  margin_usdt = none;
  leverage = 3;
  margin_mode = isolated;
  strategy_id = none;
  now = 1_000;
}

abbrev pending : StrategyThread
pending = new_thread input

abbrev pub held : StrategyThread
held = record (new_thread input) { status = in_position }

abbrev asked : DemoIntent
asked = record {
  id = "i1";
  episode_id = "";
  thread_id = some "t1";
  principal = agent_principal;
  at = 1_000;
  kind = open_kind;
  symbol = "BTCUSDT";
  direction = long;
  quantity = "1";
  entry = market;
  limit_price = none;
  stop_price = some "90";
  take_profit_price = some "120";
  sizing = record {
    equity = "100";
    risk_pct = "0";
    risk_usdt = "0";
    stop_distance = "10";
    raw_qty = "1";
    step_size = "1";
    note = "";
  };
  status = pending_approval;
  client_order_id = none;
  backend = paper;
  receipts = [];
  error = none;
}

abbrev quiet : World
quiet = record {
  threads = [];
  intents = ("i1", asked) ∷ [];
  episode_intents = [];
  halted = false;
  paused = false;
  chat_requires_approval = false;
  limits = record { max_open_threads = 3; max_opens_per_day = 4 };
  risk_pct = "0.5";
  tokens = [];
  approving = [];
  retried = [];
}

quiet-IsKeyed : IsKeyed quiet
unfolding Dict.get
quiet-IsKeyed k t e = absurd (none≢some t e)

abbrev nothing : Others
nothing w = w

abbrev accepts : OrderReceipt
accepts = record { outcome = order_submitted; avg_price = none; error = none }

abbrev fills : OrderReceipt
fills = record { outcome = order_filled; avg_price = some "100"; error = none }

abbrev silent : OrderReceipt
silent = record { outcome = order_unknown; avg_price = none; error = none }

-- No reply to the stop at first; the exchange has none, and accepts the second.
abbrev replies : Replies
replies = record {
  stop = silent;
  after_stop = nothing;
  lookup = by_algo_id (some false);
  after_lookup = nothing;
  again = accepts;
  after_again = nothing;
  close = record { closed = true; error = none };
  after_close = nothing;
  take_profit = accepts;
  after_take_profit = nothing;
}

abbrev times : Times
times = record { checked = 90_000; retried = 90_000; ended = 90_001; updated = 90_001 }

abbrev ids : Ids
ids = record { digest = λ s. s; digits = λ n. "1" }

abbrev texts : ErrorTexts
texts = record { is_transport = λ e. false; is_duplicate = λ e. false; is_standing = λ e. false }

keeps : KeepsKeys nothing
keeps w h = h

abbrev pub in_store : World
in_store = save_thread held quiet

taken : may_protect texts ids times held in_store ≡ true
unfolding may_protect save_thread new_thread ThreadStatus-discrete decide Dict.get Dict.set
taken = refl

stop_given : given_text (thread_or held in_store).stop_price ≡ some "90"
unfolding thread_or save_thread Dict.get Dict.set new_thread
stop_given = refl

place_protection-IsCovered_example :
    Stored "t1"
      (IsCovered texts ids times
        (leg_of ids none s_leg (thread_or held in_store)).0
        (first_reply texts ids times none replies)
        replies)
      (place_protection texts ids times held none none replies in_store).0
unfolding new_thread
place_protection-IsCovered_example =
    place_protection-IsCovered texts ids times held "90" none none replies in_store
      (save_thread-IsKeyed held quiet quiet-IsKeyed) (keeps, keeps, keeps, keeps, keeps) taken
      stop_given

abbrev entry_replies : EntryReplies
entry_replies = record {
  account = record {
    backend = paper;
    position_symbols = [];
    now = 100_000_000;
    daily_loss_hit = false;
    symbol_status = some "TRADING";
  };
  equity = "100";
  after_account = nothing;
  sizing_data = none;
  after_sizing = nothing;
  leverage = record { ok = true; error = none };
  after_leverage = nothing;
  margin = record { ok = true; error = none };
  after_margin = nothing;
  entry = silent;
  combined = record {
    entry = fills;
    stop = record { outcome = sent order_submitted; error = none };
    tp = record { outcome = sent order_submitted; error = none };
  };
  after_entry = nothing;
  after_pause = nothing;
  order_answer = order none;
  after_order = nothing;
  mark = none;
  protection = replies;
}

abbrev entry_times : EntryTimes
entry_times = record {
  submitting = 1_000;
  submitted_at = 1_001;
  ended = 1_002;
  updated = 1_002;
  protection = times;
}

abbrev gates : GateConfig floats
gates = default_gates floats

abbrev wording : Abort → String
wording why = "aborted"

abbrev waiting_world : World
waiting_world = save_thread pending quiet

waiting_world-IsKeyed : IsKeyed waiting_world
waiting_world-IsKeyed = save_thread-IsKeyed pending quiet quiet-IsKeyed

-- An entry without an answer.
execute_open-Fate_example :
    Fate texts ids entry_times.protection
      (thread_or pending waiting_world)
      "t1"
      (entry_receipt false (thread_or pending waiting_world) entry_replies)
      entry_replies
      (execute_open floats gates wording texts ids false pending asked none entry_times
        entry_replies waiting_world)
unfolding new_thread
execute_open-Fate_example =
    execute_open-Fate floats gates wording texts ids false pending asked none entry_times
      entry_replies waiting_world waiting_world-IsKeyed (keeps, keeps, keeps, keeps, keeps)

-- An entry that is sent with its protection.
execute_open-guarded_example :
    AreGuarded "t1"
      (opening_of floats gates wording texts ids true none entry_times
        (thread_or pending waiting_world)).cid
      (execute_open floats gates wording texts ids true pending asked none entry_times entry_replies
        waiting_world).1.made
unfolding new_thread
execute_open-guarded_example =
    execute_open-guarded floats gates wording texts ids true pending asked none entry_times
      entry_replies waiting_world waiting_world-IsKeyed (λ w h. h, λ w h. h, λ w h. h, λ w h. h)

abbrev hash : IntentContent → String
hash c = c.id

approve_intent-IsSound_example :
    IsSound hash agent_by "i1" none
      (record { sweep_now = 2_000; check_now = 2_000 })
      waiting_world
      (approve_intent hash agent_by "i1" none
        (record { sweep_now = 2_000; check_now = 2_000 })
        waiting_world)
approve_intent-IsSound_example =
    approve_intent-IsSound hash agent_by "i1" none (record { sweep_now = 2_000; check_now = 2_000 })
      waiting_world

found : waiting_intent "i1" quiet ≡ gives asked
unfolding waiting_intent waiting IntentStatus-discrete decide Dict.get
found = refl

abbrev reject_times : RejectTimes
reject_times = record { ended = 2_000; updated = 2_000 }

abbrev again : List (IntentEvent hash)
again =
    rejects "i1" reject_times
    ∷ approves agent_by "i1" none (record { sweep_now = 2_000; check_now = 2_000 })
    ∷ runs (λ w. record w { halted = true })
    ∷ []

quiet-AreIntentsKeyed : AreIntentsKeyed quiet
unfolding Dict.get
quiet-AreIntentsKeyed k i h = ground (arith, h, string_eq.beq_iff "i1" k)

reject_intent-final_example :
    let after = intent_run hash (reject_intent "i1" reject_times quiet).0 again in
    ((c' : RejectTimes) → (reject_intent "i1" c' after).1 ≡ fails (intent_is rejected))
    × ((c' : IntentTimes hash)
        → (issue_intent_confirmation hash "i1" c' after).1 ≡ fails (intent_is rejected))
    × ((by : By) (given : Option String) (c' : ApproveTimes hash)
        → (approve_intent hash by "i1" given c' after).1 ≡ fails (intent_is rejected))
reject_intent-final_example =
    reject_intent-final hash "i1" reject_times quiet asked again found quiet-AreIntentsKeyed refl
      (tt, (tt, (λ w o. o, tt)))

-- A closing that says neither that the position is gone nor why not; a fresh account has none.
abbrev closing_replies : ClosingReplies
closing_replies = record {
  cancel = record { ok = true; error = none };
  after_cancel = nothing;
  cancel_all = record { ok = true; error = none };
  after_cancel_all = nothing;
  close = record { closed = false; error = none };
  realized_pnl = none;
  avg_price = some "110";
  after_close = nothing;
  fresh = [];
  after_fresh = nothing;
}

abbrev closing_facts : ClosingFacts
closing_facts = record {
  held_qty = some "1";
  equity = some "100";
  mark = some "110";
  intent_id = "i2";
  backend = paper;
  episode = none;
  now = 2_000;
  ended = 2_001;
  updated = 2_001;
}

close_thread-Closes_example :
    Closes "t1" closing_replies in_store
      (close_thread ids closing_facts "manual" closing_replies "t1" in_store)
close_thread-Closes_example =
    close_thread-Closes ids closing_facts "manual" closing_replies "t1" in_store
      (save_thread-IsKeyed held quiet quiet-IsKeyed)

abbrev intents_of : Option StrategyThread → List String
intents_of none = []
intents_of (some t) = t.intent_ids

-- The closing's intent is lost from the list of the thread's intents.
closing_intent_lost :
    intents_of (
      Dict.get "t1"
        (close_thread_now ids closing_facts "manual" closing_replies held in_store).threads)
    ≡ []
unfolding close_thread_now save_thread save_intent next_leg_cid new_thread ThreadStatus-discrete
    decide Dict.get Dict.set
closing_intent_lost = refl
