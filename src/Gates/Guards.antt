-- ===== src/Gates/Guards.antt =====
-- `guardsFromGates` of graph.ts: the gates as ids of guards, or by their names where there is none.
use trade_gate.Prelude.{String, List, Option, none, some, map}
use trade_gate.Graph.Types.{GuardId}
use trade_gate.Graph.Lookup.{guard_id_for_gate}
use trade_gate.Gates.Types.{GateResult}

pub data GuardName : Type 0 where
  guard : GuardId → GuardName
  raw_name : String → GuardName

abbrev name_or : String → Option GuardId → GuardName
name_or name none = raw_name name
name_or name (some id) = guard id

unfoldable pub guards_from_gates : List (GuardId × String) → List GateResult → List GuardName
unfolding guard_id_for_gate
guards_from_gates guards gates = map (λ x. name_or x.name (guard_id_for_gate guards x.name)) gates
