-- ===== src/Runtime/Entry/Fate.antt =====
-- How an entry ends: what was sent, what the exchange said, and what the store then holds.
use trade_gate.Prelude.{
  ◌≡◌, refl, Bool, not, ◌&&◌, ◌∙◌, ap, subst, Option, none, some, String, List, [], ◌∷◌, arith,
  string_eq, Option-cases, Bool-cases, inl, inr, if◌then◌else◌,
}
use trade_gate.Numbers.{Numbers}
use trade_gate.Graph.Types.{status_eq}
use trade_gate.Threads.Types.{StrategyThread}
use trade_gate.Gates.Types.{GateConfig}
use trade_gate.Runtime.World.{
  World, OrderReceipt, DemoIntent, thread_or, Ids, next_leg_cid, given_text,
}
use trade_gate.Runtime.Stops.{ErrorTexts}
use trade_gate.Runtime.Protection.Stored.{IsKeyed, KeepsKeys, save_thread-IsKeyed, thread_or-id}
use trade_gate.Runtime.Preflight.{
  OpenBlocker, Abort, leverage_call, margin_call, EntryReplies, EntryTimes, Ending, Run, calls,
  waits_for, preflight_open, leverage_failed, margin_failed, halted_now, blocked_again,
}
use trade_gate.Runtime.Entry.{
  after_entry, enter, waits_for_sizing, sizing_abort, prepare, check_sizing, checked, check_again,
  opening_of, reserve, execute_open, awaits_entry,
}
use trade_gate.Runtime.Sending.{Opening, enter_alone, enter_protected, is_market}
use trade_gate.Runtime.Entry.Said.{Fate, abort-Fate, after_entry-Fate, save_intent-IsKeyed}
use trade_gate.Runtime.Entry.Answers.{either, entry_seen-append, entries, entries-append}

-- The receipt of the entry, which the backend sends alone or with its protection.
unfoldable pub entry_receipt : Bool → StrategyThread → EntryReplies → OrderReceipt
entry_receipt can_protect t replies =
    if can_protect && is_market t.entry.type
    then elim (given_text t.stop_price) [ none ↦ replies.entry | some _ ↦ replies.combined.entry ]
    else replies.entry

-- What other handlers do until the entry is sent keeps the threads under their ids.
abbrev pub KeepKeys : EntryReplies → Type 0
KeepKeys r =
    KeepsKeys r.after_account
    × KeepsKeys r.after_sizing
    × KeepsKeys r.after_leverage
    × KeepsKeys r.after_margin
    × KeepsKeys r.after_entry

module _ (E : ErrorTexts) (ids : Ids) (can_protect : Bool) (o : Opening) (replies : EntryReplies)
    (k : KeepKeys replies) where
  abbrev EntryFate : Ending × Run → Type 0
  EntryFate =
      Fate E ids o.times.protection o.thread o.thread.id
        (entry_receipt can_protect o.thread replies) replies

  alone-entries : (r : Run) → entries r.made ≡ 0 → entries (enter_alone o replies r).1.made ≡ 1
  unfolding enter_alone
  alone-entries r h = entries-append r.made _ ∙ omega (arith, h)

  protected-entries :
      (price : String) (r : Run)
      → entries r.made ≡ 0
      → entries (enter_protected ids o price replies r).1.made ≡ 1
  unfolding enter_protected
  protected-entries price r h = entries-append r.made _ ∙ omega (arith, h)

  alone-Fate :
      (receipt : OrderReceipt) (r : Run)
      → replies.entry ≡ receipt
      → IsKeyed r.world
      → entries r.made ≡ 0
      → Fate E ids o.times.protection o.thread o.thread.id receipt replies
          (after_entry E ids o replies (enter_alone o replies r))
  unfolding enter_alone
  alone-Fate receipt r e q h =
      let s = enter_alone o replies r in
      after_entry-Fate E ids o o.thread.id receipt replies s.0 s.1 r.world refl e (k.4 r.world q)
        (alone-entries r h) (entry_seen-append r.made _ h) refl

  protected-Fate :
      (price : String) (r : Run)
      → IsKeyed r.world
      → entries r.made ≡ 0
      → Fate E ids o.times.protection o.thread o.thread.id replies.combined.entry replies
          (after_entry E ids o replies (enter_protected ids o price replies r))
  unfolding enter_protected
  protected-Fate price r q h =
      let s = enter_protected ids o price replies r in
      after_entry-Fate E ids o o.thread.id replies.combined.entry replies s.0 s.1 _ refl refl
        (k.4 _ (save_thread-IsKeyed _ r.world q)) (protected-entries price r h)
        (entry_seen-append r.made _ h) refl

  enter-Fate :
      (r : Run)
      → IsKeyed r.world
      → entries r.made ≡ 0
      → EntryFate (enter E ids can_protect o replies r)
  unfolding enter entry_receipt
  enter-Fate r q h = elim (Bool-cases (can_protect && is_market o.thread.entry.type)) [
    | inr b ↦ rw (b, enter, entry_receipt) (alone-Fate replies.entry r refl q h)
    | inl b ↦ elim (Option-cases (given_text o.thread.stop_price)) [
      | inl e ↦ rw (b, e, enter, entry_receipt) (alone-Fate replies.entry r refl q h)
      | inr (price, e) ↦ rw (b, e, enter, entry_receipt) (protected-Fate price r q h)
    ]
  ]

  module _ (N : Numbers) (cfg : GateConfig N) (wording : Abort → String) where
    waited_sizing-IsKeyed :
        (r : Run) → IsKeyed r.world → IsKeyed (waits_for_sizing N cfg wording replies r).world
    waited_sizing-IsKeyed r q =
        either {A = Run} (λ x. IsKeyed x.world)
          (N.lt (N.of_text "0") (N.of_text r.intent.sizing.risk_pct)) (k.1 r.world q) q

    waited_sizing-made : (r : Run) → (waits_for_sizing N cfg wording replies r).made ≡ r.made
    waited_sizing-made r =
        either {A = Run} (λ x. x.made ≡ r.made)
          (N.lt (N.of_text "0") (N.of_text r.intent.sizing.risk_pct)) refl refl

    prepare-Fate :
        (r : Run)
        → IsKeyed r.world
        → entries r.made ≡ 0
        → EntryFate (prepare N cfg wording E ids can_protect o replies r)
    unfolding prepare
    prepare-Fate r q h =
        let receipt = entry_receipt can_protect o.thread replies in
        let r1 = calls leverage_call replies.after_leverage r in
        let r2 = calls margin_call replies.after_margin r1 in
        let h1 : entries r1.made ≡ 0 = entries-append r.made _ ∙ omega (arith, h) in
        let h2 : entries r2.made ≡ 0 = entries-append r1.made _ ∙ omega (arith, h1) in
        let q1 : IsKeyed r1.world = k.2 r.world q in
        let q2 : IsKeyed r2.world = k.3 r1.world q1 in
        let stop1 =
          abort-Fate E ids wording o (leverage_failed replies.leverage.error) receipt replies r1 q1
            h1 in
        let stop2 =
          abort-Fate E ids wording o (margin_failed replies.margin.error) receipt replies r2 q2
            h2 in
        let stop3 = abort-Fate E ids wording o halted_now receipt replies r2 q2 h2 in
        either EntryFate (not replies.leverage.ok) stop1 (
          either EntryFate (not replies.margin.ok) stop2
            (either EntryFate r2.world.halted stop3 (enter-Fate r2 q2 h2)))

    check_sizing-Fate :
        (r : Run)
        → IsKeyed r.world
        → entries r.made ≡ 0
        → EntryFate (check_sizing N cfg wording E ids can_protect o replies r)
    unfolding check_sizing
    check_sizing-Fate r q h =
        let receipt = entry_receipt can_protect o.thread replies in
        let w = waits_for_sizing N cfg wording replies r in
        let q' = waited_sizing-IsKeyed r q in
        let h' = ap entries (waited_sizing-made r) ∙ h in
        elim (Option-cases (sizing_abort N cfg wording o replies w)) [
          | inl e ↦ rw (e, check_sizing) (prepare-Fate w q' h')
          | inr (why, e) ↦
              rw (e, check_sizing) (abort-Fate E ids wording o why receipt replies w q' h')
        ]

    checked-Fate :
        (bs : List OpenBlocker) (r : Run)
        → IsKeyed r.world
        → entries r.made ≡ 0
        → EntryFate (checked N cfg wording E ids can_protect bs o replies r)
    unfolding checked
    checked-Fate [] r q h = check_sizing-Fate r q h
    checked-Fate (b ∷ bs) r q h =
        abort-Fate E ids wording o (blocked_again (b ∷ bs))
          (entry_receipt can_protect o.thread replies) replies r q h

    check_again-Fate :
        (r : Run)
        → IsKeyed r.world
        → entries r.made ≡ 0
        → EntryFate (check_again N cfg wording E ids can_protect o replies r)
    unfolding check_again
    check_again-Fate r q h =
        let receipt = entry_receipt can_protect o.thread replies in
        let w = waits_for replies.after_account r in
        let q' : IsKeyed w.world = k.0 r.world q in
        checked-Fate (preflight_open o.thread.symbol o.thread.id replies.account w.world) w q' h

-- One entry is sent or none, and the end agrees with what the exchange said. If every thread of the
-- store is under its id, and other handlers keep it so: where the thread is not waiting for its
-- entry, nothing is sent. Where the opening is given up, nothing was sent, the intent is rejected
-- and the thread canceled, without a client id. In every other case one entry was sent, and its
-- outcome, as the exchange gave it at once or when it was asked for an unknown one, decides: an
-- unknown one leaves the thread marked and the intent unknown; only a failed one cancels the thread
-- and fails the intent. A filled one fills the intent and puts the thread in position, and the end
-- is what `placeProtection` makes of that. A submitted one submits the intent, and the thread keeps
-- the status in which the handler found it when the sending returned.
pub execute_open-Fate :
    (N : Numbers) (cfg : GateConfig N) (wording : Abort → String) (E : ErrorTexts) (ids : Ids)
    (can_protect : Bool) (thread : StrategyThread) (i : DemoIntent) (ep : Option String)
    (c : EntryTimes) (replies : EntryReplies) (w : World)
    → IsKeyed w
    → KeepKeys replies
    → Fate E ids c.protection
        (thread_or thread w)
        thread.id
        (entry_receipt can_protect (thread_or thread w) replies)
        replies
        (execute_open N cfg wording E ids can_protect thread i ep c replies w)
unfolding execute_open reserve opening_of next_leg_cid
execute_open-Fate N cfg wording E ids can_protect thread i ep c replies w keyed k =
    let t = thread_or thread w in
    let o = opening_of N cfg wording E ids can_protect ep c t in
    let receipt = entry_receipt can_protect t replies in
    let r = reserve N cfg wording E ids can_protect o i w in
    let q = save_intent-IsKeyed ep _ _ (save_thread-IsKeyed _ w keyed) in
    either (Fate E ids c.protection t thread.id receipt replies)
      (awaits_entry N cfg wording E ids can_protect t)
      (subst
        (λ id.
          Fate E ids c.protection t id receipt replies
            (check_again N cfg wording E ids can_protect o replies r))
        (thread_or-id thread w keyed)
        (check_again-Fate E ids can_protect o replies k N cfg wording r q refl))
      refl
