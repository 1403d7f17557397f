-- ===== src/Graph/Examples.antt =====
-- The theorems on graph.ts at the program's graph.
use trade_gate.Prelude.{◌≡◌, refl, ◌↔◌, true, false, Option, none, some, [], ◌∷◌, contains}
use trade_gate.Dict
use trade_gate.Graph.Types.{
  graph_tests, no_trade, watch, propose, hold, exit, action_eq, ThreadStatus, in_position, scan,
  review_in_position, node_eq, open_thread, monitor, ModelEdge, EventEdge,
}
use trade_gate.Graph.Data.{open_guards, edge, judgment_graph}
use trade_gate.Graph.Lookup.{node_for, allowed_actions, edge_for, event_edge_for}
use trade_gate.Graph.Validity.{edge_for_iff}
use trade_gate.Graph.Safety.{open_thread_only}

abbrev no_thread : Option ThreadStatus
no_thread = none

abbrev propose_edge : ModelEdge
propose_edge = edge "scan.PROPOSE" scan propose open_thread open_guards

proposed : edge_for judgment_graph (node_for none false false false) propose ≡ some propose_edge
unfolding edge_for node_for judgment_graph graph_tests
proposed = refl

open_thread_only_example :
    (no_thread ≡ none)
    × (false ≡ false)
    × (false ≡ false)
    × (false ≡ false)
    × (propose ≡ propose)
    × (open_guards ≡ open_guards)
open_thread_only_example =
    open_thread_only no_thread false false false propose propose_edge proposed refl

scan_allowed : allowed_actions judgment_graph scan ≡ some (no_trade ∷ watch ∷ propose ∷ [])
unfolding allowed_actions judgment_graph graph_tests Dict.get
scan_allowed = refl

contains_watch : contains watch (no_trade ∷ watch ∷ propose ∷ []) ≡ true
unfolding graph_tests
contains_watch = refl

lacks_exit : contains exit (no_trade ∷ watch ∷ propose ∷ []) ≡ false
unfolding graph_tests
lacks_exit = refl

edge_for_iff_example :
    (edge_for judgment_graph scan hold ≡ none)
    ↔ (contains hold (no_trade ∷ watch ∷ propose ∷ []) ≡ false)
edge_for_iff_example = edge_for_iff scan hold (no_trade ∷ watch ∷ propose ∷ []) scan_allowed

abbrev wake : EventEdge
wake = record {
  id = "in_position.monitor";
  event = monitor;
  from = some in_position;
  to = review_in_position;
}

woken : event_edge_for judgment_graph monitor (some in_position) ≡ some wake
unfolding event_edge_for judgment_graph graph_tests
woken = refl
