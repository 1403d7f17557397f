-- ===== src/Runtime/Stops.antt =====
-- The stop of `placeProtection` (runtime.ts): what is sent and answered, and the fate of the stop.
use trade_gate.Prelude.{
  ℕ, Bool, true, false, not, ◌&&◌, Option, none, some, String, List, [], ◌∷◌, ◌++◌, ◌==◌, string_eq,
  if◌then◌else◌, get_elem?, option_eq, codes, reverse, nat_eq,
}
use trade_gate.Graph.Types.{status_eq}
use trade_gate.Threads.Types.{StrategyThread, Attention, entry_remainder}
use trade_gate.Threads.Facts.{OrderStatusView, is_dead}
use trade_gate.Workflow.Texts.{is_digit}
use trade_gate.Runtime.World.{
  World, Others, OrderReceipt, OrderOutcome, order_submitted, order_failed, order_unknown,
  outcome_eq,
}

-- What the patterns of the source say of an error's text.
pub record ErrorTexts : Type 0 where
  -- `isTransportError`
  pub is_transport : Option String → Bool
  -- The client id was taken by an earlier order of ours.
  pub is_duplicate : Option String → Bool
  -- `-4130`: such a stop stands already.
  pub is_standing : Option String → Bool

-- What the backend says of a stop whose fate is unknown.
pub data Lookup : Type 0 where
  by_algo_id : Option Bool → Lookup
  by_order : Option OrderStatusView → Lookup
  lookup_failed : Lookup

unfoldable pub seen_of : Lookup → Option Bool
seen_of (by_algo_id seen) = seen
seen_of (by_order none) = none
seen_of (by_order (some o)) = some (not (is_dead o.status))
seen_of lookup_failed = none

pub record CloseReply : Type 0 where
  pub closed : Bool
  pub error : Option String

-- A leg that was placed together with the entry.
pub record Placed : Type 0 where
  pub id : String
  pub receipt : OrderReceipt

-- The replies of the backend, each with what other handlers do until it comes.
pub record Replies : Type 0 where
  pub stop : OrderReceipt
  pub after_stop : Others
  pub lookup : Lookup
  pub after_lookup : Others
  pub again : OrderReceipt
  pub after_again : Others
  pub close : CloseReply
  pub after_close : Others
  pub take_profit : OrderReceipt
  pub after_take_profit : Others

abbrev pub outcome_is : OrderOutcome → OrderReceipt → Bool
outcome_is o r = r.outcome == o

-- The readings of the clock, in the order of the source.
pub record Times : Type 0 where
  pub checked : ℕ
  pub retried : ℕ
  pub ended : ℕ
  pub updated : ℕ

-- The orders that are sent.
pub data Sent : Type 0 where
  stop_sent : (cid price : String) → Sent
  take_profit_sent : (cid price : String) → Sent
  close_sent : (cid : String) → Sent

-- `/-t\d+$/`, on the codes from the end.
abbrev pub after_digits : List ℕ → Bool
after_digits [] = false
after_digits (c ∷ cs) =
    if is_digit c then after_digits cs else c == 116 && get_elem? cs 0 == some 45

abbrev pub is_take_profit_id : String → Bool
is_take_profit_id id = elim (reverse (codes id)) [
  | [] ↦ false
  | c ∷ cs ↦ is_digit c && after_digits (c ∷ cs)
]

abbrev pub as_submitted : OrderReceipt → OrderReceipt
as_submitted r = record r { outcome = order_submitted; error = none }

abbrev pub is_none : Option String → Bool
is_none none = true
is_none (some s) = false

abbrev pub is_remainder : Option Attention → Bool
is_remainder (some entry_remainder) = true
is_remainder _ = false

-- The state of a handler: the shared state, its own copy of the thread, and what it sent so far.
pub record Going : Type 0 where
  pub world : World
  pub thread : StrategyThread
  pub sent : List Sent

abbrev pub waits : Sent → Others → Going → Going
waits s others g = record g { world = others g.world; sent = g.sent ++ s ∷ [] }

-- The fate of a stop: no answer is certain, or there is a last receipt.
pub data StopFate : Type 0 where
  uncertain : StopFate
  answered : OrderReceipt → StopFate

module _ (E : ErrorTexts) where
  unfoldable pub doubted : OrderReceipt → OrderReceipt
  doubted r = if E.is_transport r.error then record r { outcome = order_unknown } else r

  unfoldable pub resent : OrderReceipt → OrderReceipt
  resent r =
      if E.is_transport r.error
      then record r { outcome = order_unknown }
      else if outcome_is order_failed r && E.is_duplicate r.error
      then as_submitted r
      else r

  unfoldable pub standing : OrderReceipt → OrderReceipt
  standing r = if outcome_is order_failed r && E.is_standing r.error then as_submitted r else r

  -- A stop whose fate is unknown is looked up, and sent once more if the exchange has none.
  unfoldable pub looked_up :
      (cid price : String) → OrderReceipt → Option Bool → Replies → Going → StopFate × Going
  unfolding resent
  looked_up cid price r none replies g = (uncertain, g)
  looked_up cid price r (some true) replies g = (answered (as_submitted r), g)
  looked_up cid price r (some false) replies g =
      (answered (resent replies.again), waits (stop_sent cid price) replies.after_again g)

  unfoldable pub stop_fate :
      (cid price : String) → OrderReceipt → Replies → Going → StopFate × Going
  unfolding doubted looked_up seen_of
  stop_fate cid price first replies g =
      let r = doubted first in
      let asked : Going = record g { world = replies.after_lookup g.world } in
      if outcome_is order_unknown r
      then looked_up cid price r (seen_of replies.lookup) replies asked
      else (answered r, g)
