-- ===== src/Transitions/Examples.antt =====
-- The theorems on the tables at the machine of intents.
use trade_gate.Prelude.{◌≤◌, ◌≡◌, refl, true, some, String, List, [], ◌∷◌, length}
use trade_gate.Transitions.Types.{intent_status}
use trade_gate.Transitions.Tables.{table}
use trade_gate.Transitions.Machine.{next_state, is_terminal}
use trade_gate.Transitions.Laws.{state_after, state_after-ends}

abbrev approved : List String
approved = "plan_materialized" ∷ "user_approved" ∷ "executor_claimed" ∷ "exchange_acked" ∷ []

approved-state_after : state_after intent_status (some "proposed") approved ≡ some "executing"
unfolding next_state table
approved-state_after = refl

recorded : is_terminal intent_status "recorded" ≡ true
unfolding is_terminal table
recorded = refl

state_after-ends_example : length approved ≤ 6
state_after-ends_example =
    state_after-ends intent_status "proposed" "executing" approved approved-state_after
