-- ===== src/Gates/Types.antt =====
-- What the gates read.
use trade_gate.Prelude.{ℕ, Bool, Option, String, List}
use trade_gate.Numbers.{Numbers}
use trade_gate.Graph.Types.{Action}
use trade_gate.Threads.Types.{Direction, EntryType}
use trade_gate.Threads.Facts.{PositionView}

pub record Proposal : Type 0 where
  pub direction : Direction
  pub entry : EntryType
  pub limit_price : Option String
  pub stop_price : String
  pub take_profit_price : Option String

-- The fields of `market` and `account` that are read stand in the context itself.
pub record GateContext : Type 0 where
  pub halted : Bool
  pub paused : Bool
  pub positions : List PositionView
  pub mark : String
  pub as_of : ℕ
  pub opens_today : ℕ
  pub stale_refs : List String
  pub now : Option ℕ

pub record GateResult : Type 0 where
  pub name : String
  pub passed : Bool

abbrev pub market_stale_ms : ℕ
market_stale_ms = 180_000

module _ (N : Numbers) where
  open N use {Number, of_text}

  pub record GatedJudgment : Type 0 where
    pub action : Action
    pub confidence : Number
    pub evidence_refs : List String
    pub proposal : Option Proposal

  pub record GateConfig : Type 0 where
    pub risk_pct : Number
    pub max_notional_multiple : Number
    pub max_opens_per_day : ℕ
    pub min_stop_pct : Number
    pub max_stop_pct : Number

  abbrev pub default_gates : GateConfig
  default_gates = record {
    risk_pct = of_text "0.5";
    max_notional_multiple = of_text "3";
    max_opens_per_day = 2;
    min_stop_pct = of_text "0.3";
    max_stop_pct = of_text "5";
  }
