-- ===== src/Transitions/Machine.antt =====
-- packages/contracts/src/transitions.ts: the helpers over the tables.
use trade_gate.Prelude.{
  Bool, ◌&&◌, Option, none, some, String, List, [], ◌∷◌, ◌==◌, string_eq, any, find, contains,
}
use trade_gate.Transitions.Types.{
  Transition, MachineName, attempt_result, authorization_status, exchange_order_status,
  intent_status,
}
use trade_gate.Transitions.Tables.{table}

abbrev pub machines : List MachineName
machines = attempt_result ∷ authorization_status ∷ exchange_order_status ∷ intent_status ∷ []

abbrev pub joins : String → String → Transition → Bool
joins from to e = e.from == from && e.to == to

abbrev pub fires : String → String → Transition → Bool
fires from event e = e.from == from && e.event == event

unfoldable pub can_transition : MachineName → String → String → Bool
can_transition machine from to = any (joins from to) (table machine).transitions

-- `?.to`
abbrev pub target : Option Transition → Option String
target none = none
target (some e) = some e.to

-- `none` is `undefined`.
unfoldable pub next_state : MachineName → String → String → Option String
next_state machine from event = target (find (fires from event) (table machine).transitions)

unfoldable pub is_terminal : MachineName → String → Bool
is_terminal machine state = contains state (table machine).terminal
