-- ===== src/Graph/Lookup.antt =====
-- The lookups of graph.ts.
use trade_gate.Prelude.{
  Bool, ◌&&◌, Option, none, some, String, List, [], ◌∷◌, ◌==◌, string_eq, option_eq, nat_eq,
  if◌then◌else◌, find,
}
use trade_gate.Dict
use trade_gate.Graph.Types.{
  Action, action_eq, ThreadStatus, pending_entry, in_position, status_eq, NodeId, scan, scan_halted,
  scan_stale, scan_watch_only, review_pending_entry, review_in_position, review_closed, node_eq,
  GuardId, guard_eq, TriggerKind, trigger_eq, ModelEdge, EventEdge, JudgmentGraph,
}

-- `thread` is the status of the thread under review, or `none` for a scan.
unfoldable pub node_for : Option ThreadStatus → Bool → Bool → Bool → NodeId
node_for (some pending_entry) halted market_stale watch_only = review_pending_entry
node_for (some in_position) halted market_stale watch_only = review_in_position
node_for (some _) halted market_stale watch_only = review_closed
node_for none halted market_stale watch_only =
    if halted
    then scan_halted
    else if market_stale
    then scan_stale
    else if watch_only
    then scan_watch_only
    else scan

-- `none` where the graph lacks the node, which throws in the source.
unfoldable pub allowed_actions : JudgmentGraph → NodeId → Option (List Action)
allowed_actions g node = Dict.get node g.nodes

unfoldable pub is_edge : NodeId → Action → ModelEdge → Bool
is_edge node action e = e.from == node && e.action == action

unfoldable pub edge_for : JudgmentGraph → NodeId → Action → Option ModelEdge
unfolding is_edge
edge_for g node action = find (is_edge node action) g.model_edges

unfoldable pub event_edge_for : JudgmentGraph → TriggerKind → Option ThreadStatus → Option EventEdge
event_edge_for g event from = find (λ e. e.event == event && e.from == from) g.event_edges

unfoldable pub guard_id_for_gate : List (GuardId × String) → String → Option GuardId
guard_id_for_gate [] gate_name = none
guard_id_for_gate ((id, name) ∷ guards) gate_name =
    if name == gate_name then some id else guard_id_for_gate guards gate_name
