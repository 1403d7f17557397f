-- ===== src/Threads/Examples.antt =====
-- The theorems on threads.ts at one thread, with whole numbers for the floats.
use mathlib.Core.Bool.{decide}
use trade_gate.Prelude.{
  ◌≡◌, refl, ◌↔◌, true, false, none, some, [], ◌∷◌, arith, ◌==◌, string_eq, if◌then◌else◌,
}
use trade_gate.Numbers.{Numbers}
use trade_gate.Numbers.Whole.{whole}
use trade_gate.Graph.Types.{pending_entry, in_position, closed, exit}
use trade_gate.Threads.Types.{
  Direction-discrete, long, chat, limit, isolated, StrategyThread, NewThread, new_thread,
}
use trade_gate.Threads.Facts.{filled, found, ThreadFacts, pos_matches}
use trade_gate.Threads.Reconcile.{fill_entry, reconcile_thread}
use trade_gate.Threads.Reconcile.Causes.{Moves, reconcile_thread-pending, reconcile_thread-closes}
use trade_gate.Threads.Review.{Judgment}
use trade_gate.Threads.Opening.{
  Workflow, opening_blockers, ThreadSteps, done, followed_by, opens, reconciles,
}
use trade_gate.Threads.Opening.Limits.{IsLimited, steps-IsLimited}

abbrev floats : Numbers
floats = whole (λ s. if s == "0" then 0 else 100)

abbrev input : NewThread
input = record {
  id = "t1";
  backend = none;
  symbol = "BTCUSDT";
  side = long;
  source = chat;
  timeframe = "1h";
  thesis = "up";
  invalidation_text = none;
  watch_conditions = [];
  entry = record { type = limit; price = some "100"; zone = none };
  stop_price = some "90";
  take_profits = [];
  qty = "1";
  margin_usdt = none;
  leverage = 3;
  margin_mode = isolated;
  strategy_id = none;
  now = 1_000;
}

abbrev waiting : StrategyThread
waiting = record (new_thread input) { entry_client_order_id = some "e1" }

abbrev held : StrategyThread
held = record waiting { status = in_position }

abbrev ended : StrategyThread
ended = record waiting { status = closed }

abbrev filled_facts : ThreadFacts
filled_facts = record {
  now = 2_000;
  position = some (record { side = long; entry_price = "100" });
  entry_order = found (record { status = filled; avg_price = none; executed_qty = "1" });
  open_orders = [];
  mark = none;
}

fills : (reconcile_thread floats waiting filled_facts).next.status ≡ in_position
unfolding reconcile_thread fill_entry new_thread Direction-discrete decide
fills = refl

waiting-status : waiting.status ≡ pending_entry
unfolding new_thread
waiting-status = refl

reconcile_thread-pending_example :
    Moves floats waiting filled_facts
      (reconcile_thread floats waiting filled_facts)
      filled_facts.entry_order
      filled_facts.position
reconcile_thread-pending_example =
    reconcile_thread-pending floats waiting filled_facts waiting-status

reconcile_thread-closes_example :
    ((reconcile_thread floats held filled_facts).next.status ≡ closed)
    ↔ (pos_matches held filled_facts.position ≡ false)
reconcile_thread-closes_example = reconcile_thread-closes floats held filled_facts refl

held-matches : pos_matches held filled_facts.position ≡ true
unfolding pos_matches new_thread Direction-discrete decide
held-matches = refl

abbrev judgment : Judgment
judgment = record { action = exit; thesis = ""; invalidation = none; watch_conditions = [] }

abbrev limits : Workflow
limits = record { max_open_threads = 2; max_opens_per_day = 5 }

unblocked : opening_blockers [] limits "BTCUSDT" 1 false ≡ []
unfolding opening_blockers
unblocked = refl

opened : ThreadSteps floats limits [] (new_thread input ∷ [])
opened = followed_by done (opens input 1 false unblocked)

reconciled :
    ThreadSteps floats limits []
      ((reconcile_thread floats (new_thread input) filled_facts).next ∷ [])
reconciled = followed_by opened (reconciles [] (new_thread input) [] filled_facts)

steps-IsLimited_example :
    IsLimited limits ((reconcile_thread floats (new_thread input) filled_facts).next ∷ [])
steps-IsLimited_example = steps-IsLimited floats limits reconciled (omega arith, λ s. omega arith)
