-- ===== src/Runtime/Approval/Rejected.antt =====
-- What a rejection ends.
use trade_gate.Threads.Types.{StrategyThread}
use trade_gate.Runtime.Approval.Laws.{Answer-cases, waiting-gives, IsSound, approve_intent-IsSound}
use trade_gate.Prelude.{
  All, List, [], ◌∷◌, arith, not, ◌==◌, ◌≡◌, refl, false, ◌∙◌, sym, ap, subst, Option, String,
  contains, string_eq, inl, inr,
}
use trade_gate.Dict
use trade_gate.Runtime.World.{World, DemoIntent, IntentStatus-discrete, rejected, intent_status_eq}
use mathlib.Core.Bool.{decide}
use trade_gate.Runtime.Approval.{
  Answer, IntentEvent, rejects, issues, approves, ends, runs, intent_step, intent_run, end_approval,
  IntentContent, intent_is, gives, fails, By, waiting, waiting_intent, RejectTimes, write_rejection,
  reject_intent, ApproveTimes, IntentTimes, issue_intent_confirmation, approve_intent,
}
use trade_gate.Runtime.Approval.Over.{
  issue_waiting, approve_waiting, HasRejected, found_waiting, write_rejection-HasRejected,
  write_rejection-approving, waiting-rejected, to_rejection, reject_waiting, AreIntentsKeyed,
  IsOver, write_rejection-keyed, other_id, rejects-IsOver, contains-filter_not,
}

module _ (hash : IntentContent → String) where
  issues-IsOver :
      (id k : String) (c : IntentTimes hash) (w : World)
      → IsOver id w
      → IsOver id (issue_intent_confirmation hash k c w).0
  unfolding issue_intent_confirmation
  issues-IsOver id k c w o = elim (Answer-cases (waiting_intent k w)) [
    | inl (e, h) ↦ rw (h, issue_intent_confirmation) o
    | inr (i, h) ↦ rw (h, issue_intent_confirmation) o
  ]

  approved-IsOver :
      (id k : String) (by : By) (given : Option String) (c : ApproveTimes hash) (w : World)
      (r : World × Answer (StrategyThread × DemoIntent))
      → IsSound hash by k given c w r
      → IsOver id w
      → IsOver id r.0
  unfolding waiting_intent waiting decide IntentStatus-discrete
  approved-IsOver id k by given c w (after, fails e) s o =
      let is : after.intents ≡ w.intents = ap (λ x. x.intents) s.0 in
      (
        (o.0.0, ap (Dict.get id) is ∙ o.0.1, o.0.2),
        ap (contains id) s.1 ∙ o.1,
        λ j i e. o.2 j i (sym (ap (Dict.get j) is) ∙ e),
      )
  approved-IsOver id k by given c w (after, gives (t, i)) s o =
      let is : after.intents ≡ w.intents = ap (λ x. x.intents) s.0 in
      let waits : waiting_intent k w ≡ gives i =
        rw (s.2.1, waiting_intent, waiting) (rw (s.2.2) refl) in
      let u = other_id id k i w o.0 waits in
      (
        (o.0.0, ap (Dict.get id) is ∙ o.0.1, o.0.2),
        ap (contains id) s.1
            ∙ ground (arith, u, o.1, string_eq.beq_iff id k, string_eq.beq_iff k id),
        λ j x e. o.2 j x (sym (ap (Dict.get j) is) ∙ e),
      )

  -- What other handlers do leaves a rejected intent rejected.
  abbrev pub Keeps : String → IntentEvent hash → Type 0
  Keeps id (runs others) = (w : World) → IsOver id w → IsOver id (others w)
  Keeps id _ = Unit

  step-IsOver :
      (id : String) (e : IntentEvent hash) (w : World)
      → Keeps id e
      → IsOver id w
      → IsOver id (intent_step hash w e)
  unfolding intent_step end_approval
  step-IsOver id (rejects k c) w h o = rejects-IsOver id k c w o
  step-IsOver id (issues k c) w h o = issues-IsOver id k c w o
  step-IsOver id (approves by k given c) w h o =
      approved-IsOver id k by given c w (approve_intent hash by k given c w)
        (approve_intent-IsSound hash by k given c w) o
  step-IsOver id (ends k) w h o =
      (o.0, contains-filter_not id (λ j. not (j == k)) w.approving o.1, o.2)
  step-IsOver id (runs others) w h o = h w o

  run-IsOver :
      (id : String) (es : List (IntentEvent hash)) (w : World)
      → All (Keeps id) es
      → IsOver id w
      → IsOver id (intent_run hash w es)
  unfolding intent_run
  run-IsOver id [] w h o = o
  run-IsOver id (e ∷ es) w h o =
      run-IsOver id es (intent_step hash w e) h.1 (step-IsOver id e w h.0 o)

-- A rejection is final: once a waiting intent of a store that has each intent under its own id is
-- rejected, and no approval of it was going on, then after any further rejections, confirmations and
-- approvals of it or of others, and after whatever other handlers do that leaves it rejected, begins
-- no approval of it and keeps each intent under its own id, every rejection, confirmation and approval
-- of it, by whomever, fails with its status.
pub reject_intent-final :
    (hash : IntentContent → String) (id : String) (c : RejectTimes) (w : World) (i : DemoIntent)
    (es : List (IntentEvent hash))
    → waiting_intent id w ≡ gives i
    → AreIntentsKeyed w
    → contains id w.approving ≡ false
    → All (Keeps hash id) es
    → let after = intent_run hash (reject_intent id c w).0 es in
      ((c' : RejectTimes) → (reject_intent id c' after).1 ≡ fails (intent_is rejected))
      × ((c' : IntentTimes hash)
          → (issue_intent_confirmation hash id c' after).1 ≡ fails (intent_is rejected))
      × ((by : By) (given : Option String) (c' : ApproveTimes hash)
          → (approve_intent hash by id given c' after).1 ≡ fails (intent_is rejected))
reject_intent-final hash id c w i es h keyed b keep =
    let own = keyed id i (waiting-gives (Dict.get id w.intents) i (found_waiting id i w h)).0 in
    let begun : IsOver id (write_rejection i c w).0 = (
      subst (λ k. HasRejected k (write_rejection i c w).0) own (write_rejection-HasRejected i c w),
      ap (contains id) (write_rejection-approving i c w) ∙ b,
      write_rejection-keyed i c w keyed,
    ) in
    let after = intent_run hash (reject_intent id c w).0 es in
    let o =
      run-IsOver hash id es (reject_intent id c w).0 keep
        (subst (λ x. IsOver id x) (sym (to_rejection id c w i h)) begun) in
    let g = waiting-rejected id after o.0 in
    (
      λ c'. reject_waiting id c' after g,
      λ c'. issue_waiting hash id c' after g,
      λ by given c'. approve_waiting hash by id given c' after o.1 g,
    )
