-- ===== src/Runtime/World.antt =====
-- What the handlers of runtime.ts share: the threads and intents of the store, the flags, the
-- tokens, and the client order ids of threads.ts. A handler stops at each `await`, where other
-- handlers may run: what they do to the shared state is an argument, next to the reply.
use trade_gate.Prelude.{
  ℕ, suc, Bool, Option, none, some, String, List, Eq, eq_of_discrete, string_eq, option_eq, ◌==◌,
  map, if◌then◌else◌,
}
use Prim.Native.String.{◌++◌ as str_append}
use trade_gate.Dict
use trade_gate.Threads.Types.{Direction, EntryType, Backend, StrategyThread}
use trade_gate.Threads.Facts.{OrderStatusView}
use trade_gate.Threads.Opening.{Workflow as Limits}
use trade_gate.Confirm.{Tokens}

pub data IntentStatus : Type 0 where
  pending_approval approved rejected submitted filled failed unknown : IntentStatus

unfoldable pub IntentStatus-discrete : Discrete IntentStatus
IntentStatus-discrete = hlevel

instance abbrev pub intent_status_eq : Eq IntentStatus
intent_status_eq = eq_of_discrete IntentStatus-discrete

pub data IntentKind : Type 0 where
  open_kind close_kind reduce_kind : IntentKind

pub data Principal : Type 0 where
  agent_principal user_principal : Principal

pub data OrderOutcome : Type 0 where
  order_filled order_submitted order_failed order_unknown : OrderOutcome

unfoldable pub OrderOutcome-discrete : Discrete OrderOutcome
OrderOutcome-discrete = hlevel

instance abbrev pub outcome_eq : Eq OrderOutcome
outcome_eq = eq_of_discrete OrderOutcome-discrete

-- The raw receipts are for people.
pub record OrderReceipt : Type 0 where
  pub outcome : OrderOutcome
  pub avg_price : Option String
  pub error : Option String

pub record Sizing : Type 0 where
  pub equity : String
  pub risk_pct : String
  pub risk_usdt : String
  pub stop_distance : String
  pub raw_qty : String
  pub step_size : String
  pub note : String

-- A protective leg that was sent together with the entry.
pub data AlgoOutcome : Type 0 where
  skipped : AlgoOutcome
  sent : OrderOutcome → AlgoOutcome

pub record AlgoLegReceipt : Type 0 where
  pub outcome : AlgoOutcome
  pub error : Option String

pub record OpenWithProtectionReceipt : Type 0 where
  pub entry : OrderReceipt
  pub stop : AlgoLegReceipt
  pub tp : AlgoLegReceipt

-- An entry of `receipts`.
pub data Leg : Type 0 where
  entry_leg : OrderReceipt → Leg
  open_with_protection_leg : OpenWithProtectionReceipt → Leg
  entry_reconcile_leg : Option OrderStatusView → Leg
  close_leg : (closed : Bool) → Option String → Leg

pub record DemoIntent : Type 0 where
  pub id : String
  pub episode_id : String
  pub thread_id : Option String
  pub principal : Principal
  pub at : ℕ
  pub kind : IntentKind
  pub symbol : String
  pub direction : Direction
  pub quantity : String
  pub entry : EntryType
  pub limit_price : Option String
  pub stop_price : Option String
  pub take_profit_price : Option String
  pub sizing : Sizing
  pub status : IntentStatus
  pub client_order_id : Option String
  pub backend : Backend
  pub receipts : List Leg
  pub error : Option String

pub record World : Type 0 where
  -- The store: threads and intents by their ids, and the intent that each episode shows.
  pub threads : List (String × StrategyThread)
  pub intents : List (String × DemoIntent)
  pub episode_intents : List (String × DemoIntent)
  pub halted : Bool
  pub paused : Bool
  -- Of the settings.
  pub chat_requires_approval : Bool
  pub limits : Limits
  pub risk_pct : String
  pub tokens : Tokens
  -- `this.approving` and `this.protectionRetryAt`
  pub approving : List String
  pub retried : List (String × ℕ)

-- What other handlers do to the shared state while one waits.
abbrev pub Others : Type 0
Others = World → World

unfoldable pub save_thread : StrategyThread → World → World
save_thread t w = record w { threads = Dict.set t.id t w.threads }

-- `this.store.thread(id) ?? t`
unfoldable pub thread_or : StrategyThread → World → StrategyThread
thread_or t w = elim (Dict.get t.id w.threads) [ none ↦ t | some s ↦ s ]

-- `updateIntent`, on the intent with the patch; `ep` is the episode's id.
unfoldable pub save_intent : Option String → DemoIntent → World → World
save_intent none i w = record w { intents = Dict.set i.id i w.intents }
save_intent (some ep) i w = record w {
  intents = Dict.set i.id i w.intents;
  episode_intents = Dict.set ep i w.episode_intents;
}

-- The legs of a thread: entry, stop, take profit, close and reduction.
pub data LegCode : Type 0 where
  e_leg s_leg t_leg x_leg r_leg : LegCode

abbrev pub leg_text : LegCode → String
leg_text e_leg = "e"
leg_text s_leg = "s"
leg_text t_leg = "t"
leg_text x_leg = "x"
leg_text r_leg = "r"

-- The first twelve digits of the hash of a thread's id, and the digits of a number.
pub record Ids : Type 0 where
  pub digest : String → String
  pub digits : ℕ → String

unfoldable pub thread_client_prefix : Ids → String → String
thread_client_prefix ids id = str_append "tgd-" (ids.digest id)

unfoldable pub next_leg_cid : Ids → StrategyThread → LegCode → String × StrategyThread
unfolding thread_client_prefix
next_leg_cid ids t leg =
    let seq = suc t.leg_seq in
    (
      str_append (thread_client_prefix ids t.id)
          (str_append "-" (str_append (leg_text leg) (ids.digits seq))),
      record t { leg_seq = seq },
    )

-- A text that is there and not empty, which is what the source asks of most optional texts.
abbrev pub given_text : Option String → Option String
given_text none = none
given_text (some s) = if s == "" then none else some s

unfoldable pub resolve_intent : StrategyThread → IntentStatus → DemoIntent → DemoIntent
resolve_intent t fallback i = elim i.status [
  | pending_approval ↦ record i { status = rejected; error = some "线程已结束" }
  | unknown ↦ record i { status = fallback }
  | approved ↦ record i { status = fallback }
  | submitted ↦ elim i.kind [
    | open_kind ↦ record i {
      status = elim (given_text t.filled_avg_price) [ none ↦ fallback | some _ ↦ filled ];
    }
    | _ ↦ i
  ]
  | _ ↦ i
]

-- `resolveOpenIntents`
unfoldable pub resolve_open_intents : StrategyThread → IntentStatus → World → World
unfolding resolve_intent
resolve_open_intents t fallback w = record w {
  intents =
      map (λ e. (e.0, if e.1.thread_id == some t.id then resolve_intent t fallback e.1 else e.1))
        w.intents;
}
