-- ===== src/Graph/Types.antt =====
-- The types of graph.ts, and those of types.ts that it takes.
use mathlib.Core.Bool.{decide}
use trade_gate.Prelude.{Option, String, List, string_eq, option_eq, Eq, nat_eq, eq_of_discrete}

pub data Action : Type 0 where
  no_trade watch propose hold add reduce exit invalidate : Action

unfoldable pub Action-discrete : Discrete Action
Action-discrete = hlevel

instance abbrev pub action_eq : Eq Action
action_eq = eq_of_discrete Action-discrete

pub data ThreadStatus : Type 0 where
  pending_entry in_position closed canceled invalidated : ThreadStatus

unfoldable pub ThreadStatus-discrete : Discrete ThreadStatus
ThreadStatus-discrete = hlevel

instance abbrev pub status_eq : Eq ThreadStatus
status_eq = eq_of_discrete ThreadStatus-discrete

pub data NodeId : Type 0 where
  scan scan_halted scan_stale scan_watch_only : NodeId
  review_pending_entry review_in_position review_closed : NodeId

unfoldable pub NodeId-discrete : Discrete NodeId
NodeId-discrete = hlevel

instance abbrev pub node_eq : Eq NodeId
node_eq = eq_of_discrete NodeId-discrete

-- What the runtime does after the model picked an edge.
pub data Effect : Type 0 where
  do_nothing note_watch open_thread cancel_entry close reduce_half : Effect

pub data GuardId : Type 0 where
  halt paused fresh_evidence no_position daily_open_cap stop_side stop_distance : GuardId
  tp_side confidence_floor thread_limits no_unknown_orders preflight no_add : GuardId
  thread_still_open : GuardId

unfoldable pub GuardId-discrete : Discrete GuardId
GuardId-discrete = hlevel

instance abbrev pub guard_eq : Eq GuardId
guard_eq = eq_of_discrete GuardId-discrete

pub data TriggerKind : Type 0 where
  kline_close manual schedule monitor position_review scan_event info_update : TriggerKind
  order_filled tp_hit sl_hit thread_review chat fast_move breakout ema_cross : TriggerKind
  vol_spike retest session funding heartbeat : TriggerKind

unfoldable pub TriggerKind-discrete : Discrete TriggerKind
TriggerKind-discrete = hlevel

instance abbrev pub trigger_eq : Eq TriggerKind
trigger_eq = eq_of_discrete TriggerKind-discrete

pub record ModelEdge : Type 0 where
  pub id : String
  pub from : NodeId
  pub action : Action
  pub effect : Effect
  pub guards : List GuardId

-- `from` is the status of the symbol's thread before the event, `none` for no open thread.
pub record EventEdge : Type 0 where
  pub id : String
  pub event : TriggerKind
  pub from : Option ThreadStatus
  pub to : NodeId

pub record JudgmentGraph : Type 0 where
  pub nodes : List (NodeId × List Action)
  pub model_edges : List ModelEdge
  pub event_edges : List EventEdge
  pub guards : List (GuardId × String)

-- A proof that computes with these tests names only this.
unfoldable pub graph_tests : Unit {0}
unfolding decide Action-discrete ThreadStatus-discrete NodeId-discrete GuardId-discrete
    TriggerKind-discrete
graph_tests = tt
