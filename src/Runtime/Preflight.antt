-- ===== src/Runtime/Preflight.antt =====
-- `preflightOpen` of runtime.ts, and the data of `executeOpen`.
use trade_gate.Prelude.{
  ℕ, ◌-◌, ◌%◌, Bool, true, false, not, ◌&&◌, Option, none, some, String, List, [], ◌∷◌, ◌++◌,
  filter, length, leb, contains, ◌==◌, string_eq, option_eq, if◌then◌else◌, Eq, eq_of_discrete,
}
use trade_gate.Dict
use trade_gate.Graph.Types.{canceled, status_eq}
use trade_gate.Threads.Types.{
  Direction, EntryType, StrategyThread, ThreadSource, manual, Backend, paper,
}
use trade_gate.Threads.Facts.{OrderStatusView}
use trade_gate.Threads.Opening.{Blocker, is_open, opening_blockers}
use trade_gate.Gates.Sizing.{SymbolRules}
use trade_gate.Runtime.World.{
  World, Others, OrderReceipt, outcome_eq, OpenWithProtectionReceipt, DemoIntent, save_thread,
  save_intent,
}
use trade_gate.Runtime.Stops.{Replies, Times}

pub data OpenBlocker : Type 0 where
  is_halted is_paused has_position not_trading : OpenBlocker
  limit_blocker : Blocker → OpenBlocker

-- What `preflightOpen` reads besides the shared state.
pub record Market : Type 0 where
  pub backend : Backend
  pub position_symbols : List String
  pub now : ℕ
  pub daily_loss_hit : Bool
  pub symbol_status : Option String

abbrev utc_day_start : ℕ → ℕ
utc_day_start now = now - now % 86_400_000

abbrev is_canceled : StrategyThread → Bool
is_canceled t = t.status == canceled

abbrev is_manual : ThreadSource → Bool
is_manual manual = true
is_manual _ = false

abbrev pub has_entry_id : StrategyThread → Bool
has_entry_id t = elim t.entry_client_order_id [ none ↦ false | some _ ↦ true ]

-- `threadOpensSince` of store.ts, without the thread `exclude`.
unfoldable pub thread_opens_since : ℕ → String → List StrategyThread → ℕ
thread_opens_since since exclude threads = length (
    filter
      (λ t.
        leb since t.created_at
        && not (t.id == exclude)
        && not (is_canceled t)
        && not (is_manual t.source)
        && has_entry_id t)
      threads)

abbrev block_if : Bool → OpenBlocker → List OpenBlocker → List OpenBlocker
block_if b x rest = if b then x ∷ rest else rest

abbrev limit_blockers : List Blocker → List OpenBlocker → List OpenBlocker
limit_blockers [] rest = rest
limit_blockers (b ∷ bs) rest = limit_blocker b ∷ limit_blockers bs rest

unfoldable pub Backend-discrete : Discrete Backend
Backend-discrete = hlevel

instance abbrev backend_eq : Eq Backend
backend_eq = eq_of_discrete Backend-discrete

-- `t.backend ?? 'paper'`
abbrev column_of : Option Backend → Backend
column_of none = paper
column_of (some b) = b

-- What `openThreads` asks of a thread: it is open, and the running backend's. The limit of 200 rows of
-- that query is left out.
unfoldable pub is_awake : Backend → StrategyThread → Bool
is_awake b t = is_open t && column_of t.backend == b

-- `exclude` is the thread that is being opened; an empty text excludes none.
unfoldable pub preflight_open : String → String → Market → World → List OpenBlocker
unfolding opening_blockers thread_opens_since is_awake
preflight_open symbol exclude m w =
    let threads = Dict.values w.threads in
    let awake = filter (is_awake m.backend) threads in
    let others = filter (λ t. not (t.id == exclude)) awake in
    let opens = thread_opens_since (utc_day_start m.now) exclude threads in
    let not_listed : Bool = elim m.symbol_status [ none ↦ false | some s ↦ not (s == "TRADING") ] in
    block_if w.halted is_halted (
      block_if w.paused is_paused (
        block_if (contains symbol m.position_symbols) has_position (
          limit_blockers (opening_blockers others w.limits symbol opens m.daily_loss_hit)
            (block_if not_listed not_trading []))))

-- Why an entry is not sent.
pub data Abort : Type 0 where
  blocked_again : List OpenBlocker → Abort
  sizing_refused sizing_unavailable halted_now : Abort
  leverage_failed margin_failed : Option String → Abort

pub record EntryRequest : Type 0 where
  pub symbol : String
  pub direction : Direction
  pub qty : String
  pub entry : EntryType
  pub limit_price : Option String
  pub client_order_id : String

-- The calls that change something at the exchange, or ask for the order; each with the shared state
-- in which it is made.
pub data Call : Type 0 where
  leverage_call margin_call order_call : Call
  entry_call : EntryRequest → Call
  protected_entry_call :
      EntryRequest → (stop_price stop_cid : String) → Option (String × String) → Call

pub record Made : Type 0 where
  pub call : Call
  pub seen : World

-- `{ ok, error }`
pub record Done : Type 0 where
  pub ok : Bool
  pub error : Option String

-- The answer to `getOrder`.
pub data OrderAnswer : Type 0 where
  order : Option OrderStatusView → OrderAnswer
  order_threw : OrderAnswer

-- The replies, each with what other handlers do until it comes; a missing mark and rules stand for
-- data that cannot be had.
pub record EntryReplies : Type 0 where
  pub account : Market
  pub equity : String
  pub after_account : Others
  pub sizing_data : Option (String × SymbolRules)
  pub after_sizing : Others
  pub leverage : Done
  pub after_leverage : Others
  pub margin : Done
  pub after_margin : Others
  pub entry : OrderReceipt
  pub combined : OpenWithProtectionReceipt
  pub after_entry : Others
  pub after_pause : Others
  pub order_answer : OrderAnswer
  pub after_order : Others
  pub mark : Option String
  pub protection : Replies

-- The readings of the clock.
pub record EntryTimes : Type 0 where
  pub submitting : ℕ
  pub submitted_at : ℕ
  pub ended : ℕ
  pub updated : ℕ
  pub protection : Times

-- How the entry ended, as the handler sees it.
pub data Ending : Type 0 where
  aborted : Abort → Ending
  stays_unknown entry_failed entry_filled entry_submitted : Ending
  -- The thread is not waiting for its entry: nothing is done.
  refused : Ending

-- The state of the handler: the shared state, the intent that it holds, and the calls it made.
pub record Run : Type 0 where
  pub world : World
  pub intent : DemoIntent
  pub made : List Made

abbrev pub calls : Call → Others → Run → Run
calls c others r = record r {
  world = others r.world;
  made = r.made ++ record { call = c; seen = r.world } ∷ [];
}

abbrev pub waits_for : Others → Run → Run
waits_for others r = record r { world = others r.world }

-- `updateIntent`
abbrev pub sets_intent : Option String → DemoIntent → Run → Run
sets_intent ep i r = record r { intent = i; world = save_intent ep i r.world }

abbrev pub sets_thread : StrategyThread → Run → Run
sets_thread t r = record r { world = save_thread t r.world }
