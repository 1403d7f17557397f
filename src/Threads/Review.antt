-- ===== src/Threads/Review.antt =====
-- `allowedReviewActions` and `reduceReview` of threads.ts. The reason of a decision, a text for
-- people, is left out.
pub mod Decisions
use trade_gate.Prelude.{
  Bool, true, false, not, Option, none, some, String, List, [], ◌∷◌, ◌==◌, string_eq, if◌then◌else◌,
}
use trade_gate.Graph.Types.{
  Action, invalidate, action_eq, Effect, do_nothing, note_watch, open_thread, cancel_entry, close,
  reduce_half, ModelEdge,
}
use trade_gate.Graph.Data.{judgment_graph}
use trade_gate.Graph.Lookup.{node_for, allowed_actions, edge_for}
use trade_gate.Threads.Types.{StrategyThread}
use trade_gate.Threads.Facts.{or_else}

-- The fields of a judgment that a review reads.
pub record Judgment : Type 0 where
  pub action : Action
  pub thesis : String
  pub invalidation : Option String
  pub watch_conditions : List String

-- The fields of a thread that a review may set; `close_reason` only where there is one.
pub record ReviewPatch : Type 0 where
  pub thesis : String
  pub invalidation_text : Option String
  pub watch_conditions : List String
  pub close_reason : Option String

pub data ReviewEffect : Type 0 where
  no_effect cancels_entry reduces_half closes : ReviewEffect

-- No patch is the empty one.
pub record ReviewDecision : Type 0 where
  pub accepted : Bool
  pub effect : ReviewEffect
  pub patch : Option ReviewPatch
  pub edge : Option String

unfoldable pub allowed_review_actions : StrategyThread → Option (List Action)
allowed_review_actions t =
    allowed_actions judgment_graph (node_for (some t.status) false false false)

abbrev non_empty_or : List String → List String → List String
non_empty_or [] other = other
non_empty_or (s ∷ l) other = s ∷ l

unfoldable pub review_patch : StrategyThread → Judgment → Option String → ReviewPatch
review_patch t j reason = record {
  thesis = if j.thesis == "" then t.thesis else j.thesis;
  invalidation_text = or_else j.invalidation t.invalidation_text;
  watch_conditions = non_empty_or j.watch_conditions t.watch_conditions;
  close_reason = reason;
}

abbrev close_reason_for : Action → String
close_reason_for invalidate = "论点失效(复查)"
close_reason_for _ = "复查离场"

abbrev accept : ModelEdge → ReviewEffect → ReviewPatch → ReviewDecision
accept e effect patch = record {
  accepted = true;
  effect = effect;
  patch = some patch;
  edge = some e.id;
}

abbrev refuse : Option String → ReviewDecision
refuse edge = record { accepted = false; effect = no_effect; patch = none; edge = edge }

-- The `switch` on the effect of the edge.
unfoldable pub take_edge : StrategyThread → Judgment → ModelEdge → Effect → ReviewDecision
unfolding review_patch
take_edge t j e do_nothing = accept e no_effect (review_patch t j none)
take_edge t j e cancel_entry = accept e cancels_entry (review_patch t j (some "论点失效(复查)"))
take_edge t j e close = accept e closes (review_patch t j (some (close_reason_for j.action)))
take_edge t j e reduce_half = accept e reduces_half (review_patch t j none)
take_edge t j e note_watch = refuse (some e.id)
take_edge t j e open_thread = refuse (some e.id)

unfoldable pub decide_by : StrategyThread → Judgment → Option ModelEdge → ReviewDecision
unfolding take_edge
decide_by t j none = refuse none
decide_by t j (some e) = take_edge t j e e.effect

unfoldable pub reduce_review : StrategyThread → Judgment → ReviewDecision
unfolding decide_by
reduce_review t j =
    decide_by t j (edge_for judgment_graph (node_for (some t.status) false false false) j.action)
