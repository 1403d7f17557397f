-- ===== src/Gates/Laws.antt =====
-- What the gates let through, and which guards of the judgment graph they are.
use trade_gate.Prelude.{
  ◌<◌, ◌≡◌, refl, ap, ◌∙◌, ◌==◌, string_eq, Bool, true, false, not, ◌&&◌, ◌||◌, Option, none, some,
  String, List, [], ◌∷◌, ◌++◌, arith, all, contains, if◌then◌else◌,
}
use trade_gate.Numbers.{Numbers}
use trade_gate.Graph.Types.{graph_tests, Action, propose, add, GuardId, guard_eq, no_add}
use trade_gate.Graph.Data.{open_guards, graph_guards}
use trade_gate.Graph.Lookup.{guard_id_for_gate}
use trade_gate.Threads.Types.{Direction}
use trade_gate.Gates.Types.{Proposal, GateContext, GateResult, GatedJudgment, GateConfig}
use trade_gate.Gates.Evaluate.{
  gate, is_opening, snapshot_stale, cites_stale, tp_gates, price_gates, propose_gates, action_gates,
  evaluate_gates,
}

abbrev pub names_guard : List GuardId → Option GuardId → Bool
names_guard guards none = false
names_guard guards (some id) = contains id guards

-- The name of the gate is that of one of the guards.
pub is_guard : List GuardId → GateResult → Bool
is_guard guards g = names_guard guards (guard_id_for_gate graph_guards g.name)

abbrev pub guards_for : Action → List GuardId
guards_for add = no_add ∷ open_guards
guards_for _ = open_guards

all-append : (p : GateResult → Bool) (a b : List GateResult) → all p (a ++ b) ≡ (all p a && all p b)
all-append p [] b = refl
all-append p (x ∷ a) b = ground (arith, all-append p a b)

if-all :
    (b : Bool) (x : GateResult)
    → is_guard open_guards x ≡ true
    → all (is_guard open_guards) (if b then [] else x ∷ []) ≡ true
if-all true x h = refl
if-all false x h = ground arith

-- The gates that every judgment passes through.
common_gates-guards :
    (a : Action) (b c d : Bool)
    → (is_guard (guards_for a) (gate "紧急停止" b) ≡ true)
      × (is_guard (guards_for a) (gate "暂停" c) ≡ true)
      × (is_guard (guards_for a) (gate "证据新鲜度" d) ≡ true)
unfolding is_guard guard_id_for_gate graph_tests
common_gates-guards add b c d = (refl, refl, refl)
common_gates-guards _ b c d = (refl, refl, refl)

module _ (N : Numbers) (ctx : GateContext) (cfg : GateConfig N) where
  tp_gates-guards :
      (d : Direction) (ref : N.Number) (o : Option String)
      → all (is_guard open_guards) (tp_gates N d ref o) ≡ true
  unfolding tp_gates is_guard guard_id_for_gate graph_tests
  tp_gates-guards d ref none = refl
  tp_gates-guards d ref (some text) = if-all (text == "") _ refl

  price_gates-guards :
      (p : Option Proposal) → all (is_guard open_guards) (price_gates N cfg ctx.mark p) ≡ true
  unfolding price_gates is_guard guard_id_for_gate graph_tests
  price_gates-guards none = refl
  price_gates-guards (some p) = tp_gates-guards p.direction _ p.take_profit_price

  action_gates-guards :
      (a : Action) (j : GatedJudgment N)
      → all (is_guard (guards_for a)) (action_gates N a j ctx cfg) ≡ true
  unfolding action_gates propose_gates is_guard guard_id_for_gate graph_tests
  action_gates-guards propose j =
      all-append (is_guard open_guards) (price_gates N cfg ctx.mark j.proposal) _
      ∙ ap (λ b. b && true) (price_gates-guards j.proposal)
  action_gates-guards add j = refl
  action_gates-guards _ j = refl

  -- Every gate that is evaluated is, by its name, a guard of the judgment graph: one of those on
  -- the edge that opens a thread, or for ADD the guard against it.
  pub evaluate_gates-guards :
      (j : GatedJudgment N)
      → all (is_guard (guards_for j.action)) (evaluate_gates N j ctx cfg) ≡ true
  unfolding evaluate_gates
  evaluate_gates-guards j =
      let (p, q, r) =
        common_gates-guards j.action (not (ctx.halted && is_opening j.action))
          (not (ctx.paused && is_opening j.action))
          (not (is_opening j.action && (cites_stale j.evidence_refs ctx || snapshot_stale ctx))) in
      ground (arith, p, q, r, action_gates-guards j.action j)

  abbrev pub passes : GateResult → Bool
  passes g = g.passed

  -- A judgment that opens passes all its gates only as a PROPOSE, with the system neither halted
  -- nor paused, no position, fewer openings today than the limit, and fresh evidence and market.
  pub evaluate_gates-opens :
      (j : GatedJudgment N)
      → is_opening j.action ≡ true
      → all passes (evaluate_gates N j ctx cfg) ≡ true
      → (j.action ≡ propose)
        × (ctx.halted ≡ false)
        × (ctx.paused ≡ false)
        × (ctx.positions ≡ [])
        × (ctx.opens_today < cfg.max_opens_per_day)
        × (cites_stale j.evidence_refs ctx ≡ false)
        × (snapshot_stale ctx ≡ false)
  unfolding evaluate_gates action_gates propose_gates
  evaluate_gates-opens j o h = ground arith
