-- ===== src/Graph/Safety.antt =====
-- What the program's graph lets the model do.
use trade_gate.Prelude.{
  ◌≡◌, refl, Bool, true, false, Option, none, some, arith, ap, ◌∙◌, ◌&&◌, ◌==◌, both, option_eq,
  all, find-all,
}
use trade_gate.Graph.Types.{
  graph_tests, Action, propose, ThreadStatus, status_eq, trigger_eq, NodeId, scan, node_eq,
  open_thread, ModelEdge, EventEdge, TriggerKind,
}
use trade_gate.Graph.Data.{open_guards, judgment_graph}
use trade_gate.Graph.Lookup.{node_for, edge_for, event_edge_for}

edge_opens :
    (n : NodeId) (a : Action) (e : ModelEdge)
    → edge_for judgment_graph n a ≡ some e
    → e.effect ≡ open_thread
    → (n ≡ scan) × (a ≡ propose) × (e.guards ≡ open_guards)
unfolding judgment_graph edge_for graph_tests
edge_opens scan propose e h k = ground arith
edge_opens _ _ e h k = ground arith

node_for-scan :
    (status : Option ThreadStatus) (halted stale watch_only : Bool)
    → node_for status halted stale watch_only ≡ scan
    → (status ≡ none) × (halted ≡ false) × (stale ≡ false) × (watch_only ≡ false)
unfolding node_for
node_for-scan status halted stale watch_only h = ground arith

-- A model edge opens a thread only for a PROPOSE on a symbol with no thread, while the system is
-- not halted, the market is not stale and the symbol is not watch-only, and behind all the gates
-- for opening.
pub open_thread_only :
    (status : Option ThreadStatus) (halted stale watch_only : Bool) (a : Action) (e : ModelEdge)
    → edge_for judgment_graph (node_for status halted stale watch_only) a ≡ some e
    → e.effect ≡ open_thread
    → (status ≡ none)
      × (halted ≡ false)
      × (stale ≡ false)
      × (watch_only ≡ false)
      × (a ≡ propose)
      × (e.guards ≡ open_guards)
open_thread_only status halted stale watch_only a e h k =
    let (at, act, guards) = edge_opens (node_for status halted stale watch_only) a e h k in
    let (s, p, q, r) = node_for-scan status halted stale watch_only at in (s, p, q, r, act, guards)

abbrev agrees : EventEdge → Bool
agrees e = e.to == node_for e.from false false false

event_edges_agree : all agrees judgment_graph.event_edges ≡ true
unfolding judgment_graph node_for graph_tests
event_edges_agree = refl

event_edge_parts :
    (event : TriggerKind) (from : Option ThreadStatus) (e : EventEdge)
    → (e.event == event && e.from == from) ≡ true
    → agrees e ≡ true
    → (e.event ≡ event) × (e.from ≡ from) × (e.to ≡ node_for from false false false)
event_edge_parts event from e h k =
    let (p, q) = both (e.event == event) (e.from == from) h in
    let same = (option_eq.beq_iff e.from from).0 q in
    (
      (trigger_eq.beq_iff e.event event).0 p,
      same,
      (node_eq.beq_iff e.to _).0 k ∙ ap (λ f. node_for f false false false) same,
    )

-- An event edge leads to the node at which the symbol's thread status is judged, when nothing
-- restricts a scan.
pub event_edge_for-node_for :
    (event : TriggerKind) (from : Option ThreadStatus) (e : EventEdge)
    → event_edge_for judgment_graph event from ≡ some e
    → (e.event ≡ event) × (e.from ≡ from) × (e.to ≡ node_for from false false false)
unfolding event_edge_for
event_edge_for-node_for event from e h =
    let (p, q) = find-all _ agrees judgment_graph.event_edges e event_edges_agree h in
    event_edge_parts event from e p q
