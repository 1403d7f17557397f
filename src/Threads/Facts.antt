-- ===== src/Threads/Facts.antt =====
-- The exchange facts of one reconciliation pass, and the tests on them, of threads.ts.
use trade_gate.Prelude.{
  ℕ, ◌+◌, Bool, true, false, not, ◌&&◌, Option, none, some, String, List, [], ltb, leb, ◌==◌,
  string_eq,
}
use trade_gate.Threads.Types.{
  Direction, direction_eq, Attention, external_position, order_unknown, protection_missing,
  entry_remainder, halt_incomplete, close_failed, StrategyThread,
}

-- The statuses that the code asks for, and any other text but `GONE`, its name for a missing order.
pub data OrderStatus : Type 0 where
  new partially_filled filled order_canceled expired rejected : OrderStatus
  other_status : String → OrderStatus

abbrev pub status_text : OrderStatus → String
status_text new = "NEW"
status_text partially_filled = "PARTIALLY_FILLED"
status_text filled = "FILLED"
status_text order_canceled = "CANCELED"
status_text expired = "EXPIRED"
status_text rejected = "REJECTED"
status_text (other_status s) = s

pub record OrderStatusView : Type 0 where
  pub status : OrderStatus
  pub avg_price : Option String
  pub executed_qty : String

-- `gone` is `null`: the exchange does not know the order.
pub data EntryOrder : Type 0 where
  unqueried gone : EntryOrder
  found : OrderStatusView → EntryOrder

pub record PositionView : Type 0 where
  pub side : Direction
  pub entry_price : String

pub record OpenOrderView : Type 0 where
  pub client_order_id : String
  pub type : String
  pub side : String
  pub stop_price : Option String
  pub reduce_only : Bool

pub record ThreadFacts : Type 0 where
  pub now : ℕ
  pub position : Option PositionView
  pub entry_order : EntryOrder
  pub open_orders : List OpenOrderView
  pub mark : Option String

pub data EventKind : Type 0 where
  entry_filled closed_event attention_event attention_cleared canceled_event : EventKind

pub record ReconcileResult : Type 0 where
  pub next : StrategyThread
  pub changed : Bool
  pub events : List EventKind

abbrev pub attribution_grace_ms : ℕ
attribution_grace_ms = 45_000

unfoldable pub within_submit_grace : StrategyThread → ℕ → Bool
within_submit_grace t now = elim t.entry_submitted_at [
  | none ↦ false
  | some at ↦ leb at now && ltb now (at + attribution_grace_ms)
]

-- `posMatches`
unfoldable pub pos_matches : StrategyThread → Option PositionView → Bool
pos_matches t none = false
pos_matches t (some p) = p.side == t.side

-- `bump` after the changes.
unfoldable pub bump : ℕ → ℕ → StrategyThread → StrategyThread
bump version now next = record next { version = version + 1; updated_at = now }

unfoldable pub unchanged : StrategyThread → ReconcileResult
unchanged t = record { next = t; changed = false; events = [] }

unfoldable pub changed_to :
    StrategyThread → ThreadFacts → StrategyThread → List EventKind → ReconcileResult
unfolding bump
changed_to t f next events = record {
  next = bump t.version f.now next;
  changed = true;
  events = events;
}

abbrev pub or_else {ℓ} : {A : Type ℓ} → Option A → Option A → Option A
or_else (some a) o = some a
or_else none o = o

abbrev pub is_some {ℓ} : {A : Type ℓ} → Option A → Bool
is_some none = false
is_some (some a) = true

abbrev pub is_truthy : Option String → Bool
is_truthy none = false
is_truthy (some s) = not (s == "")

abbrev pub is_external : Option Attention → Bool
is_external (some external_position) = true
is_external _ = false

abbrev pub is_order_unknown : Option Attention → Bool
is_order_unknown (some order_unknown) = true
is_order_unknown _ = false

abbrev pub is_missing : Option Attention → Bool
is_missing (some protection_missing) = true
is_missing _ = false

-- The flags that the runtime owns.
abbrev pub is_runtime_owned : Option Attention → Bool
is_runtime_owned (some halt_incomplete) = true
is_runtime_owned (some entry_remainder) = true
is_runtime_owned (some close_failed) = true
is_runtime_owned _ = false

abbrev pub is_partial : OrderStatus → Bool
is_partial partially_filled = true
is_partial _ = false

abbrev pub is_filled : OrderStatus → Bool
is_filled filled = true
is_filled partially_filled = true
is_filled _ = false

-- `['CANCELED', 'EXPIRED', 'REJECTED'].includes(st)`
abbrev pub is_dead : OrderStatus → Bool
is_dead order_canceled = true
is_dead expired = true
is_dead rejected = true
is_dead _ = false
