-- ===== src/Threads/Types.antt =====
-- The types of threads.ts, and those of types.ts and execution.ts that it takes.
use trade_gate.Prelude.{ℕ, Option, none, String, List, [], Eq, eq_of_discrete}
use trade_gate.Graph.Types.{ThreadStatus, pending_entry}

pub data Direction : Type 0 where
  long short : Direction

unfoldable pub Direction-discrete : Discrete Direction
Direction-discrete = hlevel

instance abbrev pub direction_eq : Eq Direction
direction_eq = eq_of_discrete Direction-discrete

pub data ThreadSource : Type 0 where
  agent manual chat : ThreadSource

pub data Backend : Type 0 where
  paper demo cli agent_mcp : Backend

pub data MarginMode : Type 0 where
  cross isolated : MarginMode

pub data EntryType : Type 0 where
  market limit : EntryType

-- The texts that the code gives to `attention`, and any other one.
pub data Attention : Type 0 where
  external_position order_unknown protection_missing entry_remainder : Attention
  halt_incomplete close_failed : Attention
  other : String → Attention

pub record Entry : Type 0 where
  pub type : EntryType
  pub price : Option String
  pub zone : Option (String × String)

-- A field that may be missing or `null` is an option.
pub record StrategyThread : Type 0 where
  pub id : String
  pub backend : Option Backend
  pub strategy_id : Option String
  pub exit_price : Option String
  pub symbol : String
  pub side : Direction
  pub status : ThreadStatus
  pub source : ThreadSource
  pub timeframe : String
  pub thesis : String
  pub invalidation_text : Option String
  pub watch_conditions : List String
  pub entry : Entry
  pub stop_price : Option String
  pub take_profits : List String
  pub qty : String
  pub margin_usdt : Option String
  pub leverage : ℕ
  pub margin_mode : MarginMode
  pub entry_client_order_id : Option String
  pub protection_client_order_ids : List String
  pub filled_avg_price : Option String
  pub realized_pnl : Option String
  pub close_reason : Option String
  pub attention : Option Attention
  pub entry_lookup_misses : ℕ
  pub entry_submitting_since : Option ℕ
  pub entry_submitted_at : Option ℕ
  pub leg_seq : ℕ
  pub episode_ids : List String
  pub intent_ids : List String
  pub created_at : ℕ
  pub updated_at : ℕ
  pub opened_at : Option ℕ
  pub closed_at : Option ℕ
  pub version : ℕ

-- The input of `newThread`.
pub record NewThread : Type 0 where
  pub id : String
  pub backend : Option Backend
  pub symbol : String
  pub side : Direction
  pub source : ThreadSource
  pub timeframe : String
  pub thesis : String
  pub invalidation_text : Option String
  pub watch_conditions : List String
  pub entry : Entry
  pub stop_price : Option String
  pub take_profits : List String
  pub qty : String
  pub margin_usdt : Option String
  pub leverage : ℕ
  pub margin_mode : MarginMode
  pub strategy_id : Option String
  pub now : ℕ

unfoldable pub new_thread : NewThread → StrategyThread
new_thread input = record {
  id = input.id;
  backend = input.backend;
  strategy_id = input.strategy_id;
  exit_price = none;
  symbol = input.symbol;
  side = input.side;
  status = pending_entry;
  source = input.source;
  timeframe = input.timeframe;
  thesis = input.thesis;
  invalidation_text = input.invalidation_text;
  watch_conditions = input.watch_conditions;
  entry = input.entry;
  stop_price = input.stop_price;
  take_profits = input.take_profits;
  qty = input.qty;
  margin_usdt = input.margin_usdt;
  leverage = input.leverage;
  margin_mode = input.margin_mode;
  entry_client_order_id = none;
  protection_client_order_ids = [];
  filled_avg_price = none;
  realized_pnl = none;
  close_reason = none;
  attention = none;
  entry_lookup_misses = 0;
  entry_submitting_since = none;
  entry_submitted_at = none;
  leg_seq = 0;
  episode_ids = [];
  intent_ids = [];
  created_at = input.now;
  updated_at = input.now;
  opened_at = none;
  closed_at = none;
  version = 1;
}
