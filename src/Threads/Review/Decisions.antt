-- ===== src/Threads/Review/Decisions.antt =====
-- What a review may decide, by the status of its thread.
use trade_gate.Prelude.{
  ◌≡◌, refl, ◌≢◌, Bool, true, false, Option, none, some, List, contains, arith,
}
use trade_gate.Dict
use trade_gate.Graph.Types.{
  Action, hold, reduce, exit, invalidate, action_eq, graph_tests, ThreadStatus, pending_entry,
  in_position, closed, canceled, invalidated,
}
use trade_gate.Graph.Data.{judgment_graph}
use trade_gate.Graph.Lookup.{node_for, allowed_actions, edge_for}
use trade_gate.Threads.Types.{StrategyThread}
use trade_gate.Threads.Review.{
  Judgment, ReviewDecision, ReviewEffect, no_effect, cancels_entry, reduces_half, closes,
  allowed_review_actions, decide_by, take_edge, reduce_review,
}

-- The table of the reviews, written out: what each action does to a thread of each status.
abbrev pub review_effect : ThreadStatus → Action → Option ReviewEffect
review_effect pending_entry hold = some no_effect
review_effect pending_entry invalidate = some cancels_entry
review_effect in_position hold = some no_effect
review_effect in_position reduce = some reduces_half
review_effect in_position exit = some closes
review_effect in_position invalidate = some closes
review_effect _ _ = none

-- A decision carries out an effect, or refuses and changes nothing.
abbrev pub Decides : ReviewDecision → Option ReviewEffect → Type 0
Decides d (some e) = (d.accepted ≡ true) × (d.effect ≡ e) × (d.patch ≢ none)
Decides d none = (d.accepted ≡ false) × (d.effect ≡ no_effect) × (d.patch ≡ none)

-- The actions are known, and the action is one of them.
abbrev pub lists : Option (List Action) → Action → Bool
lists none a = false
lists (some l) a = contains a l

module _ (t : StrategyThread) (j : Judgment) where
  decides :
      (s : ThreadStatus) (a : Action)
      → Decides
          (decide_by t j (edge_for judgment_graph (node_for (some s) false false false) a))
          (review_effect s a)
  unfolding decide_by take_edge edge_for node_for graph_tests judgment_graph
  decides pending_entry hold = (refl, refl, ground arith)
  decides pending_entry invalidate = (refl, refl, ground arith)
  decides pending_entry _ = (refl, refl, refl)
  decides in_position hold = (refl, refl, ground arith)
  decides in_position reduce = (refl, refl, ground arith)
  decides in_position exit = (refl, refl, ground arith)
  decides in_position invalidate = (refl, refl, ground arith)
  decides in_position _ = (refl, refl, refl)
  decides closed a = (refl, refl, refl)
  decides canceled a = (refl, refl, refl)
  decides invalidated a = (refl, refl, refl)

  -- A review does what the table of its thread's status and its action says: it is accepted with
  -- that effect and a patch, or, where the table has nothing, it is refused with no effect and an
  -- empty patch.
  pub reduce_review-Decides : Decides (reduce_review t j) (review_effect t.status j.action)
  unfolding reduce_review
  reduce_review-Decides = decides t.status j.action

  accepts :
      (s : ThreadStatus) (a : Action)
      → (decide_by t j (edge_for judgment_graph (node_for (some s) false false false) a)).accepted
        ≡ lists (allowed_actions judgment_graph (node_for (some s) false false false)) a
  unfolding decide_by take_edge edge_for allowed_actions node_for graph_tests judgment_graph
      Dict.get
  accepts pending_entry hold = refl
  accepts pending_entry _ = refl
  accepts in_position hold = refl
  accepts in_position _ = refl
  accepts closed a = refl
  accepts canceled a = refl
  accepts invalidated a = refl

  -- A review is accepted exactly for the actions that the graph lists as allowed for its thread.
  pub reduce_review-allowed :
      (reduce_review t j).accepted ≡ lists (allowed_review_actions t) j.action
  unfolding reduce_review allowed_review_actions
  reduce_review-allowed = accepts t.status j.action
