-- ===== src/Gates/Examples.antt =====
-- The theorems on gates.ts at a judgment that passes, with whole numbers for the floats.
use trade_gate.Prelude.{
  ℕ, List, String, ◌<◌, ◌≡◌, refl, true, false, none, some, [], ◌∷◌, ◌==◌, string_eq, if◌then◌else◌,
  all,
}
use trade_gate.Numbers.{Numbers}
use trade_gate.Numbers.Whole.{look_up, whole}
use trade_gate.Graph.Types.{propose}
use trade_gate.Threads.Types.{long, limit}
use trade_gate.Gates.Types.{Proposal, GateContext, GatedJudgment, GateConfig}
use trade_gate.Gates.Evaluate.{snapshot_stale, cites_stale, evaluate_gates}
use trade_gate.Gates.Sizing.{SymbolRules, SizingOptions}
use trade_gate.Gates.Laws.{
  is_guard, guards_for, evaluate_gates-guards, passes, evaluate_gates-opens,
}

abbrev floats : Numbers
floats =
    whole (λ s.
      if s == "990" then 990 else if s == "1000" then 1_000 else if s == "100" then 100 else 0)

abbrev judgment : GatedJudgment floats
judgment = record {
  action = propose;
  confidence = 1;
  evidence_refs = "k1" ∷ [];
  proposal = some (record {
    direction = long;
    entry = limit;
    limit_price = some "1000";
    stop_price = "990";
    take_profit_price = none;
  });
}

abbrev context : GateContext
context = record {
  halted = false;
  paused = false;
  positions = [];
  mark = "1000";
  as_of = 1_000;
  opens_today = 1;
  stale_refs = "k2" ∷ [];
  now = some 2_000;
}

abbrev config : GateConfig floats
config = record {
  risk_pct = 1;
  max_notional_multiple = 3;
  max_opens_per_day = 2;
  min_stop_pct = 0;
  max_stop_pct = 5_000;
}

all_passed :
    all (passes floats context config) (evaluate_gates floats judgment context config) ≡ true
unfolding evaluate_gates
all_passed = refl

evaluate_gates-guards_example :
    all (is_guard (guards_for propose)) (evaluate_gates floats judgment context config) ≡ true
evaluate_gates-guards_example = evaluate_gates-guards floats context config judgment

evaluate_gates-opens_example :
    (propose ≡ propose)
    × (false ≡ false)
    × (false ≡ false)
    × (context.positions ≡ [])
    × (1 < 2)
    × (cites_stale ("k1" ∷ []) context ≡ false)
    × (snapshot_stale context ≡ false)
evaluate_gates-opens_example = evaluate_gates-opens floats context config judgment refl all_passed

abbrev literals : List (String × ℕ)
literals =
    ("1", 1)
    ∷ ("1.0001", 1)
    ∷ ("1.02", 1)
    ∷ ("1.05", 1)
    ∷ ("5", 5)
    ∷ ("6", 6)
    ∷ ("100", 100)
    ∷ ("990", 990)
    ∷ ("1000", 1_000)
    ∷ ("1005", 1_005)
    ∷ ("10000", 10_000)
    ∷ ("Infinity", 1_000_000)
    ∷ []

abbrev amounts : Numbers
amounts = whole (look_up literals)

abbrev pullback : Proposal
pullback = record {
  direction = long;
  entry = limit;
  limit_price = some "1000";
  stop_price = "990";
  take_profit_price = none;
}

abbrev rules : SymbolRules
rules = record { step_size = "1"; tick_size = "1"; min_qty = "1"; min_notional = "5" }

abbrev sizing_config : GateConfig amounts
sizing_config = record {
  risk_pct = 1;
  max_notional_multiple = 3;
  max_opens_per_day = 2;
  min_stop_pct = 0;
  max_stop_pct = 5_000;
}

abbrev fixed : SizingOptions amounts
fixed = record { liquidity_notional_cap = none; fixed_qty = some "6" }
