-- ===== src/Graph/Data.antt =====
-- The tables of graph.ts and `JUDGMENT_GRAPH`, in the order of the source.
use Prim.Native.String.{◌++◌ as str_append}
use trade_gate.Prelude.{
  Option, none, some, String, List, [], ◌∷◌, ◌++◌, string_eq, option_eq, nat_eq,
}
use trade_gate.Graph.Types.{
  Action, no_trade, watch, propose, hold, reduce, exit, invalidate, action_eq, ThreadStatus,
  pending_entry, in_position, status_eq, NodeId, scan, scan_halted, scan_stale, scan_watch_only,
  review_pending_entry, review_in_position, review_closed, node_eq, Effect, do_nothing, note_watch,
  open_thread, cancel_entry, close, reduce_half, GuardId, halt, paused, fresh_evidence, no_position,
  daily_open_cap, stop_side, stop_distance, tp_side, confidence_floor, thread_limits,
  no_unknown_orders, preflight, no_add, thread_still_open, guard_eq, TriggerKind, kline_close,
  manual, schedule, monitor, position_review, scan_event, info_update, order_filled, tp_hit, sl_hit,
  thread_review, chat, fast_move, breakout, ema_cross, vol_spike, retest, session, funding,
  heartbeat, trigger_eq, ModelEdge, EventEdge, JudgmentGraph,
}

abbrev pub open_guards : List GuardId
open_guards =
    halt ∷ paused ∷ fresh_evidence ∷ no_position ∷ daily_open_cap ∷ stop_side ∷ stop_distance
    ∷ tp_side ∷ confidence_floor ∷ thread_limits ∷ no_unknown_orders ∷ preflight ∷ []

abbrev pub edge : String → NodeId → Action → Effect → List GuardId → ModelEdge
edge id from action effect guards = record {
  id = id;
  from = from;
  action = action;
  effect = effect;
  guards = guards;
}

-- The names are those that gates.ts and runtime.ts emit.
abbrev pub graph_guards : List (GuardId × String)
graph_guards =
    (halt, "紧急停止")
    ∷ (paused, "暂停")
    ∷ (fresh_evidence, "证据新鲜度")
    ∷ (no_position, "无持仓才能开仓")
    ∷ (daily_open_cap, "每日开仓上限")
    ∷ (stop_side, "止损在正确一侧")
    ∷ (stop_distance, "止损距离")
    ∷ (tp_side, "止盈在正确一侧")
    ∷ (confidence_floor, "信心下限")
    ∷ (thread_limits, "线程/日内限制")
    ∷ (no_unknown_orders, "没有状态不明的订单")
    ∷ (preflight, "提交前重闸")
    ∷ (no_add, "演示版不加仓")
    ∷ (thread_still_open, "线程仍开放")
    ∷ []

abbrev pub model_edges : List ModelEdge
model_edges =
    edge "scan.NO_TRADE" scan no_trade do_nothing []
    ∷ edge "scan.WATCH" scan watch note_watch []
    ∷ edge "scan.PROPOSE" scan propose open_thread open_guards
    ∷ edge "halted.NO_TRADE" scan_halted no_trade do_nothing (halt ∷ [])
    ∷ edge "stale.NO_TRADE" scan_stale no_trade do_nothing []
    ∷ edge "stale.WATCH" scan_stale watch note_watch []
    ∷ edge "watch_only.NO_TRADE" scan_watch_only no_trade do_nothing []
    ∷ edge "watch_only.WATCH" scan_watch_only watch note_watch []
    ∷ edge "pending.HOLD" review_pending_entry hold do_nothing (thread_still_open ∷ [])
    ∷ edge "pending.INVALIDATE" review_pending_entry invalidate cancel_entry
        (thread_still_open ∷ [])
    ∷ edge "position.HOLD" review_in_position hold do_nothing (thread_still_open ∷ [])
    ∷ edge "position.REDUCE" review_in_position reduce reduce_half (thread_still_open ∷ [])
    ∷ edge "position.EXIT" review_in_position exit close (thread_still_open ∷ [])
    ∷ edge "position.INVALIDATE" review_in_position invalidate close (thread_still_open ∷ [])
    ∷ []

abbrev pub scan_events : List TriggerKind
scan_events =
    kline_close ∷ scan_event ∷ manual ∷ chat ∷ heartbeat ∷ breakout ∷ ema_cross ∷ vol_spike ∷ retest
    ∷ fast_move ∷ session ∷ funding ∷ schedule ∷ []

abbrev pub review_events : List TriggerKind
review_events =
    kline_close ∷ manual ∷ chat ∷ heartbeat ∷ info_update ∷ order_filled ∷ tp_hit ∷ sl_hit
    ∷ thread_review ∷ position_review ∷ fast_move ∷ breakout ∷ ema_cross ∷ vol_spike ∷ retest
    ∷ session ∷ funding ∷ monitor ∷ []

-- The kind as the source spells it, in a template.
abbrev pub trigger_name : TriggerKind → String
trigger_name kline_close = "kline_close"
trigger_name manual = "manual"
trigger_name schedule = "schedule"
trigger_name monitor = "monitor"
trigger_name position_review = "position_review"
trigger_name scan_event = "scan"
trigger_name info_update = "info_update"
trigger_name order_filled = "order_filled"
trigger_name tp_hit = "tp_hit"
trigger_name sl_hit = "sl_hit"
trigger_name thread_review = "thread_review"
trigger_name chat = "chat"
trigger_name fast_move = "fast_move"
trigger_name breakout = "breakout"
trigger_name ema_cross = "ema_cross"
trigger_name vol_spike = "vol_spike"
trigger_name retest = "retest"
trigger_name session = "session"
trigger_name funding = "funding"
trigger_name heartbeat = "heartbeat"

abbrev pub event_edges_of :
    String → Option ThreadStatus → NodeId → List TriggerKind → List EventEdge
event_edges_of prefix from to [] = []
event_edges_of prefix from to (event ∷ events) =
    record { id = str_append prefix (trigger_name event); event = event; from = from; to = to }
    ∷ event_edges_of prefix from to events

abbrev pub event_edges : List EventEdge
event_edges =
    event_edges_of "none." none scan scan_events
    ++ (event_edges_of "pending_entry." (some pending_entry) review_pending_entry review_events
        ++ event_edges_of "in_position." (some in_position) review_in_position review_events)

abbrev pub graph_nodes : List (NodeId × List Action)
graph_nodes =
    (scan, no_trade ∷ watch ∷ propose ∷ [])
    ∷ (scan_halted, no_trade ∷ [])
    ∷ (scan_watch_only, no_trade ∷ watch ∷ [])
    ∷ (scan_stale, no_trade ∷ watch ∷ [])
    ∷ (review_pending_entry, hold ∷ invalidate ∷ [])
    ∷ (review_in_position, hold ∷ reduce ∷ exit ∷ invalidate ∷ [])
    ∷ (review_closed, [])
    ∷ []

unfoldable pub judgment_graph : JudgmentGraph
judgment_graph = record {
  nodes = graph_nodes;
  model_edges = model_edges;
  event_edges = event_edges;
  guards = graph_guards;
}
