-- ===== src/Graph/Validate.antt =====
-- `validateGraph` of graph.ts, with its messages as constructors.
use trade_gate.Prelude.{
  Bool, false, ◌||◌, String, List, [], ◌∷◌, ◌++◌, map, ◌==◌, string_eq, option_eq, Eq, nat_eq,
  if◌then◌else◌, filter, contains, length,
}
use trade_gate.Graph.Types.{
  Action, action_eq, status_eq, NodeId, node_eq, GuardId, guard_eq, trigger_eq, ModelEdge,
  JudgmentGraph,
}

pub data GraphError : Type 0 where
  not_one_edge : NodeId → Action → GraphError
  not_allowed : NodeId → String → Action → GraphError
  duplicate_id : String → GraphError
  unknown_guard : String → GuardId → GraphError
  unknown_node : String → NodeId → GraphError

-- `for (const x of xs) if (!test(x)) errors.push(error(x))`
abbrev pub complain {ℓ} : {A : Type ℓ} → (A → Bool) → (A → GraphError) → List A → List GraphError
complain test error [] = []
complain test error (x ∷ xs) =
    if test x then complain test error xs else error x ∷ complain test error xs

unfoldable pub has_one_edge : List ModelEdge → Action → Bool
has_one_edge edges a = length (filter (λ e. e.action == a) edges) == 1

-- The first loop of `validateGraph`.
unfoldable pub node_errors : JudgmentGraph → List (NodeId × List Action) → List GraphError
unfolding has_one_edge
node_errors g [] = []
node_errors g ((node, allowed) ∷ nodes) =
    let edges = filter (λ e. e.from == node) g.model_edges in
    complain (has_one_edge edges) (not_one_edge node) allowed
    ++ (complain (λ e. contains e.action allowed) (λ e. not_allowed node e.id e.action) edges
        ++ node_errors g nodes)

-- The second: `ids` is the set of the ids seen.
unfoldable pub id_errors : List String → List String → List GraphError
id_errors ids [] = []
id_errors ids (e ∷ es) =
    let rest = id_errors (e ∷ ids) es in if contains e ids then duplicate_id e ∷ rest else rest

unfoldable pub has_key {ℓ κ} : {K : Type ℓ} {V : Type κ} ⦃e : Eq K⦄ → K → List (K × V) → Bool
has_key k [] = false
has_key k ((j, v) ∷ m) = k == j || has_key k m

unfoldable pub guard_errors : JudgmentGraph → List ModelEdge → List GraphError
unfolding has_key
guard_errors g [] = []
guard_errors g (e ∷ edges) =
    complain (λ gd. has_key gd g.guards) (unknown_guard e.id) e.guards ++ guard_errors g edges

unfoldable pub edge_ids : JudgmentGraph → List String
edge_ids g = map (λ e. e.id) g.model_edges ++ map (λ e. e.id) g.event_edges

unfoldable pub validate_graph : JudgmentGraph → List GraphError
unfolding node_errors id_errors guard_errors edge_ids has_key
validate_graph g =
    node_errors g g.nodes
    ++ (id_errors [] (edge_ids g)
        ++ (guard_errors g g.model_edges
            ++ complain (λ e. has_key e.to g.nodes) (λ e. unknown_node e.id e.to) g.event_edges))
