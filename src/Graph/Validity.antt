-- ===== src/Graph/Validity.antt =====
-- What a graph that `validateGraph` accepts promises, and that the program's own graph is one.
use mathlib.Core.Path.{subst₂}
use mathlib.Core.Bool.{false≢true}
use trade_gate.Prelude.{
  ◌≡◌, refl, ap, sym, ◌∙◌, Bool, true, false, not, ◌||◌, none, some, List, [], ◌∷◌, arith, ◌==◌,
  inl, inr, ◌↔◌, Eq, find, filter, contains, all, all_of_filter, none≢some, filter-filter,
  find_of_filter, find-all, length-eq-one, append-eq-nil, nat_beq_iff, both, Bool-cases,
  Option-cases,
}
use trade_gate.Dict
use trade_gate.Graph.Types.{
  graph_tests, Action, action_eq, NodeId, node_eq, ModelEdge, JudgmentGraph,
}
use trade_gate.Graph.Data.{judgment_graph}
use trade_gate.Graph.Lookup.{is_edge, edge_for, allowed_actions}
use trade_gate.Graph.Validate.{
  GraphError, not_one_edge, not_allowed, complain, has_one_edge, node_errors, validate_graph,
}

complain-contains {ℓ} :
    {A : Type ℓ} ⦃e : Eq A⦄ (test : A → Bool) (error : A → GraphError) (a : A) (l : List A)
    → complain test error l ≡ []
    → contains a l ≡ true
    → test a ≡ true
complain-contains test error a [] h c = ground arith
complain-contains ⦃e⦄ test error a (x ∷ l) h c =
    ground (arith, e.beq_iff a x, complain-contains test error a l)

complain-all {ℓ} :
    {A : Type ℓ} (test : A → Bool) (error : A → GraphError) (l : List A)
    → complain test error l ≡ []
    → all test l ≡ true
complain-all test error [] h = refl
complain-all test error (x ∷ l) h = ground (arith, complain-all test error l)

abbrev edges_from : NodeId → JudgmentGraph → List ModelEdge
edges_from n g = filter (λ e. e.from == n) g.model_edges

after : (p q : Bool) → p ≡ true → (not p || q) ≡ true → q ≡ true
after p q h k = ground arith

same_allowed : (a b : List Action) → some a ≡ some b → a ≡ b
same_allowed a b h = cc

edge_clash :
    (n : NodeId) (a : Action) (allowed : List Action) (e : ModelEdge)
    → (is_edge n a e ≡ true) × ((not (e.from == n) || contains e.action allowed) ≡ true)
    → contains a allowed ≡ false
    → ⊥
unfolding is_edge
edge_clash n a allowed e h c =
    let (from, act) = both (e.from == n) (e.action == a) h.0 in
    let held = after (e.from == n) (contains e.action allowed) from h.1 in
    false≢true
      (sym c ∙ ap (λ b. contains b allowed) (sym ((action_eq.beq_iff e.action a).0 act)) ∙ held)

module _ (g : JudgmentGraph) where
  node_errors-here :
      (j n : NodeId) (spec allowed : List Action)
      → j ≡ n
      → some spec ≡ some allowed
      → complain (has_one_edge (edges_from j g)) (not_one_edge j) spec ≡ []
      → complain (λ e. contains e.action spec) (λ e. not_allowed j e.id e.action) (edges_from j g)
        ≡ []
      → (complain (has_one_edge (edges_from n g)) (not_one_edge n) allowed ≡ [])
        × (complain
              (λ e. contains e.action allowed)
              (λ e. not_allowed n e.id e.action)
              (edges_from n g)
            ≡ [])
  node_errors-here j n spec allowed e d one held =
      subst₂
        (λ n allowed.
          (complain (has_one_edge (edges_from n g)) (not_one_edge n) allowed ≡ [])
          × (complain (λ e. contains e.action allowed) (λ e. not_allowed n e.id e.action)
                (edges_from n g)
              ≡ []))
        e (same_allowed spec allowed d) (one, held)

  node_errors-get :
      (nodes : List (NodeId × List Action)) (n : NodeId) (allowed : List Action)
      → node_errors g nodes ≡ []
      → Dict.get n nodes ≡ some allowed
      → (complain (has_one_edge (edges_from n g)) (not_one_edge n) allowed ≡ [])
        × (complain
              (λ e. contains e.action allowed)
              (λ e. not_allowed n e.id e.action)
              (edges_from n g)
            ≡ [])
  unfolding node_errors Dict.get
  node_errors-get [] n allowed h d = absurd (ground arith)
  node_errors-get ((j, spec) ∷ nodes) n allowed h d =
      let (one, h') = append-eq-nil (complain _ _ spec) _ h in
      let (held, rest) = append-eq-nil (complain _ _ (edges_from j g)) _ h' in
      elim (Bool-cases (j == n)) [
        | inl e ↦ node_errors-here j n spec allowed ((node_eq.beq_iff j n).0 e) (rw e at d) one held
        | inr e ↦ node_errors-get nodes n allowed rest (rw e at d)
      ]

  is_edge-filter :
      (n : NodeId) (a : Action)
      → filter (λ e. e.action == a) (edges_from n g) ≡ filter (is_edge n a) g.model_edges
  unfolding is_edge
  is_edge-filter n a = filter-filter (λ e. e.action == a) (λ e. e.from == n) g.model_edges

  module _ (n : NodeId) (allowed : List Action) (a : Action) (valid : validate_graph g ≡ [])
      (node : allowed_actions g n ≡ some allowed) where
    checked :
        (complain (has_one_edge (edges_from n g)) (not_one_edge n) allowed ≡ [])
        × (complain
              (λ e. contains e.action allowed)
              (λ e. not_allowed n e.id e.action)
              (edges_from n g)
            ≡ [])
    unfolding validate_graph allowed_actions
    checked =
        node_errors-get g.nodes n allowed (append-eq-nil (node_errors g g.nodes) _ valid).0 node

    no_edge :
        (e : ModelEdge)
        → find (is_edge n a) g.model_edges ≡ some e
        → all (λ e. not (e.from == n) || contains e.action allowed) g.model_edges ≡ true
        → contains a allowed ≡ false
        → ⊥
    no_edge e f h c =
        edge_clash n a allowed e
          (find-all (is_edge n a) (λ e. not (e.from == n) || contains e.action allowed)
            g.model_edges e h f)
          c

    -- In a graph without errors an action that its node allows has exactly one edge, which the
    -- lookup returns.
    pub edge_for_allowed :
        contains a allowed ≡ true
        → (e : ModelEdge) × (edge_for g n a ≡ some e)
          × (filter (is_edge n a) g.model_edges ≡ e ∷ [])
    unfolding has_one_edge edge_for
    edge_for_allowed c =
        let one =
          complain-contains (has_one_edge (edges_from n g)) (not_one_edge n) a allowed checked.0
            c in
        let (e, only) = length-eq-one _ ((nat_beq_iff _ 1).0 one) in
        let only' = sym (is_edge-filter n a) ∙ only in
        (e, find_of_filter (is_edge n a) g.model_edges e only', only')

    -- In a graph without errors the lookup finds no edge for an action that is not allowed.
    pub edge_for_forbidden : contains a allowed ≡ false → edge_for g n a ≡ none
    unfolding edge_for
    edge_for_forbidden c = elim (Option-cases (find (is_edge n a) g.model_edges)) [
      | inl e ↦ e
      | inr (e, f) ↦ absurd (
          no_edge e f
            (all_of_filter _ _ g.model_edges (complain-all _ _ (edges_from n g) checked.1)) c)
    ]

-- The program's graph has no errors.
pub judgment_graph_valid : validate_graph judgment_graph ≡ []
unfolding validate_graph judgment_graph graph_tests
judgment_graph_valid = refl

-- In the program's graph the lookup finds an edge for exactly the allowed actions.
pub edge_for_iff :
    (n : NodeId) (a : Action) (allowed : List Action)
    → allowed_actions judgment_graph n ≡ some allowed
    → (edge_for judgment_graph n a ≡ none) ↔ (contains a allowed ≡ false)
edge_for_iff n a allowed h = (
  λ e. elim (Bool-cases (contains a allowed)) [
    | inl c ↦
        let (x, f, _) = edge_for_allowed judgment_graph n allowed a judgment_graph_valid h c in
        absurd (none≢some x (sym e ∙ f))
    | inr c ↦ c
  ],
  edge_for_forbidden judgment_graph n allowed a judgment_graph_valid h,
)
