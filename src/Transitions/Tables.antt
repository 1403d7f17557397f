-- ===== src/Transitions/Tables.antt =====
-- packages/contracts/src/generated/transitions.ts: the four tables. The notes and descriptions are
-- left out.
use trade_gate.Prelude.{String, [], ◌∷◌}
use trade_gate.Transitions.Types.{
  Transition, Table, MachineName, attempt_result, authorization_status, exchange_order_status,
  intent_status,
}

abbrev move : String → String → String → Transition
move from to event = record { from = from; to = to; event = event }

abbrev pub attempt_result_table : Table
attempt_result_table = record {
  initial = "pending";
  states = "pending" ∷ "acked" ∷ "rejected" ∷ "unknown" ∷ "not_received" ∷ [];
  terminal = "acked" ∷ "rejected" ∷ "not_received" ∷ [];
  transitions =
      move "pending" "acked" "exchange_acked"
      ∷ move "pending" "rejected" "exchange_rejected"
      ∷ move "pending" "unknown" "ambiguous"
      ∷ move "pending" "not_received" "never_submitted"
      ∷ move "unknown" "acked" "reconciled_found"
      ∷ move "unknown" "rejected" "reconciled_rejected"
      ∷ move "unknown" "not_received" "confirmed_not_received"
      ∷ [];
}

abbrev pub authorization_status_table : Table
authorization_status_table = record {
  initial = "active";
  states = "active" ∷ "consumed" ∷ "expired" ∷ "invalidated" ∷ "revoked" ∷ [];
  terminal = "consumed" ∷ "expired" ∷ "invalidated" ∷ "revoked" ∷ [];
  transitions =
      move "active" "consumed" "dispatched"
      ∷ move "active" "expired" "ttl_elapsed"
      ∷ move "active" "invalidated" "plan_changed"
      ∷ move "active" "invalidated" "regate_rejected"
      ∷ move "active" "invalidated" "account_version_changed"
      ∷ move "active" "revoked" "user_revoked"
      ∷ move "active" "revoked" "emergency_stop"
      ∷ [];
}

abbrev pub exchange_order_status_table : Table
exchange_order_status_table = record {
  initial = "new";
  states = "new" ∷ "partially_filled" ∷ "filled" ∷ "canceled" ∷ "expired" ∷ "rejected" ∷ [];
  terminal = "filled" ∷ "canceled" ∷ "expired" ∷ "rejected" ∷ [];
  transitions =
      move "new" "partially_filled" "partial_fill"
      ∷ move "new" "filled" "fill"
      ∷ move "new" "canceled" "cancel"
      ∷ move "new" "expired" "expire"
      ∷ move "new" "rejected" "reject"
      ∷ move "partially_filled" "filled" "fill"
      ∷ move "partially_filled" "canceled" "cancel"
      ∷ move "partially_filled" "expired" "expire"
      ∷ [];
}

abbrev pub intent_status_table : Table
intent_status_table = record {
  initial = "proposed";
  states =
      "proposed" ∷ "rejected" ∷ "awaiting_approval" ∷ "authorized" ∷ "recorded" ∷ "dispatching"
      ∷ "execution_unknown" ∷ "executing" ∷ "completed" ∷ "canceled" ∷ "expired" ∷ [];
  terminal = "rejected" ∷ "recorded" ∷ "completed" ∷ "canceled" ∷ "expired" ∷ [];
  transitions =
      move "proposed" "rejected" "gate_rejected"
      ∷ move "proposed" "awaiting_approval" "plan_materialized"
      ∷ move "proposed" "authorized" "policy_auto_authorized"
      ∷ move "proposed" "recorded" "observe_only"
      ∷ move "proposed" "expired" "proposal_ttl_elapsed"
      ∷ move "awaiting_approval" "authorized" "user_approved"
      ∷ move "awaiting_approval" "expired" "approval_ttl_elapsed"
      ∷ move "awaiting_approval" "rejected" "user_rejected"
      ∷ move "awaiting_approval" "rejected" "regate_rejected"
      ∷ move "authorized" "dispatching" "executor_claimed"
      ∷ move "authorized" "rejected" "regate_rejected"
      ∷ move "authorized" "expired" "authorization_ttl_elapsed"
      ∷ move "authorized" "canceled" "halted_before_dispatch"
      ∷ move "dispatching" "executing" "exchange_acked"
      ∷ move "dispatching" "rejected" "exchange_rejected"
      ∷ move "dispatching" "rejected" "regate_rejected"
      ∷ move "dispatching" "execution_unknown" "submit_ambiguous"
      ∷ move "dispatching" "canceled" "halted_before_submit"
      ∷ move "execution_unknown" "executing" "reconciled_found"
      ∷ move "execution_unknown" "canceled" "confirmed_not_received"
      ∷ move "executing" "completed" "effect_satisfied"
      ∷ move "executing" "canceled" "cancel_confirmed"
      ∷ move "executing" "canceled" "expired_on_exchange"
      ∷ move "executing" "canceled" "compensation_close"
      ∷ [];
}

unfoldable pub table : MachineName → Table
table attempt_result = attempt_result_table
table authorization_status = authorization_status_table
table exchange_order_status = exchange_order_status_table
table intent_status = intent_status_table
