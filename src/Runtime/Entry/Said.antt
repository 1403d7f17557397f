-- ===== src/Runtime/Entry/Said.antt =====
-- What the exchange said of an entry, and what that leaves.
use trade_gate.Prelude.{
  ◌≡◌, refl, true, ◌∙◌, sym, ap, subst, Option, none, some, String, arith, string_eq, inl, inr,
  ◌==◌,
}
use trade_gate.Dict
use trade_gate.Runtime.Protection.{place_protection}
use trade_gate.Graph.Types.{canceled, in_position, status_eq}
use trade_gate.Threads.Types.{StrategyThread, order_unknown as attention_unknown}
use trade_gate.Runtime.World.{
  World, OrderReceipt, OrderOutcome, order_filled, order_submitted, order_failed, order_unknown,
  DemoIntent, rejected, submitted, filled, failed, unknown, thread_or, save_thread, save_intent,
  Ids,
}
use trade_gate.Runtime.Stops.{ErrorTexts, Placed, Times}
use trade_gate.Runtime.Protection.Stored.{
  IsKeyed, save_thread-IsKeyed, thread_or-id, Stored, Stored-save,
}
use trade_gate.Runtime.Preflight.{
  Abort, OrderAnswer, order, order_threw, EntryReplies, Ending, aborted, stays_unknown,
  entry_failed, entry_filled, entry_submitted, refused, Run, sets_intent,
}
use trade_gate.Runtime.Entry.{conclude, after_entry, protects}
use trade_gate.Runtime.Sending.{
  Opening, abort, Entered, close_submission, bumped, resolved_outcome, adds_answer,
}
use trade_gate.Runtime.Entry.Answers.{
  entries, entries-append, answered-IsAnswer, IsSaid, IsCanceled, entry_seen, entry_seen-kept,
}

module _ (E : ErrorTexts) (ids : Ids) (times : Times) (thread : StrategyThread) where
  -- The store holds the thread in position, and what `placeProtection` makes of that is the end.
  abbrev pub IsInPosition : String → EntryReplies → World → Type 0
  IsInPosition id replies after =
      (before : World) × (s : StrategyThread) × (stop : Option Placed) × (tp : Option Placed)
      × (Dict.get id before.threads ≡ some s)
      × (s.status ≡ in_position)
      × (after ≡ (place_protection E ids times s stop tp replies.protection before).0)

  -- The thread has the status in which the handler found it when the sending of the entry returned.
  abbrev pub IsAsFound : String → EntryReplies → Run → Type 0
  IsAsFound id replies r =
      (w : World) × (entry_seen r.made ≡ some w)
      × Stored id (λ s. s.status ≡ (thread_or thread (replies.after_entry w)).status) r.world

  -- What each ending says of the thread `id`.
  abbrev pub Fate : String → OrderReceipt → EntryReplies → Ending × Run → Type 0
  Fate id receipt replies (refused, r) = entries r.made ≡ 0
  Fate id receipt replies (aborted why, r) =
      (entries r.made ≡ 0)
      × (r.intent.status ≡ rejected)
      × Stored id (λ s. (s.status ≡ canceled) × (s.entry_client_order_id ≡ none)) r.world
  Fate id receipt replies (stays_unknown, r) =
      (entries r.made ≡ 1)
      × IsSaid order_unknown receipt replies
      × (r.intent.status ≡ unknown)
      × Stored id (λ s. s.attention ≡ some attention_unknown) r.world
  Fate id receipt replies (entry_failed, r) =
      (entries r.made ≡ 1)
      × IsSaid order_failed receipt replies
      × (r.intent.status ≡ failed)
      × Stored id (λ s. s.status ≡ canceled) r.world
  Fate id receipt replies (entry_filled, r) =
      (entries r.made ≡ 1)
      × IsSaid order_filled receipt replies
      × (r.intent.status ≡ filled)
      × IsInPosition id replies r.world
  Fate id receipt replies (entry_submitted, r) =
      (entries r.made ≡ 1)
      × IsSaid order_submitted receipt replies
      × (r.intent.status ≡ submitted)
      × IsAsFound id replies r

pub save_intent-IsKeyed :
    (ep : Option String) (i : DemoIntent) (w : World) → IsKeyed w → IsKeyed (save_intent ep i w)
unfolding save_intent
save_intent-IsKeyed none i w h = h
save_intent-IsKeyed (some ep) i w h = h

abbrev pub WasAborted : StrategyThread → Type 0
WasAborted s = (s.status ≡ canceled) × (s.entry_client_order_id ≡ none)

abbrev pub IsUnclear : StrategyThread → Type 0
IsUnclear s = s.attention ≡ some attention_unknown

pub abort-Fate :
    (E : ErrorTexts) (ids : Ids) (wording : Abort → String) (o : Opening) (why : Abort)
    (receipt : OrderReceipt) (replies : EntryReplies) (r : Run)
    → IsKeyed r.world
    → entries r.made ≡ 0
    → Fate E ids o.times.protection o.thread o.thread.id receipt replies (abort wording o why r)
unfolding abort
abort-Fate E ids wording o why receipt replies r k h =
    let i : DemoIntent = record r.intent { status = rejected; error = some (wording why) } in
    let told = sets_intent o.episode i r in
    let keyed = save_intent-IsKeyed o.episode i r.world k in
    (
      h,
      refl,
      subst (λ id. Stored id WasAborted (abort wording o why r).1.world)
          (thread_or-id o.thread told.world keyed)
          (Stored-save WasAborted _ told.world (refl, refl)),
    )

pub adds_answer-made : (a : OrderAnswer) (r : Run) → (adds_answer a r).made ≡ r.made
adds_answer-made order_threw r = refl
adds_answer-made (order o) r = refl

module _ (E : ErrorTexts) (ids : Ids) (o : Opening) (id : String) (receipt : OrderReceipt)
    (replies : EntryReplies) where
  abbrev EntryFate : Ending × Run → Type 0
  EntryFate = Fate E ids o.times.protection o.thread id receipt replies

  conclude-Fate :
      (cur : StrategyThread) (entered : Entered) (outcome : OrderOutcome) (r : Run) (w : World)
      → cur.id ≡ id
      → entries r.made ≡ 1
      → entry_seen r.made ≡ some w
      → cur.status ≡ (thread_or o.thread (replies.after_entry w)).status
      → IsSaid outcome receipt replies
      → EntryFate (conclude E ids o cur entered replies (outcome, r))
  unfolding conclude protects
  conclude-Fate cur entered order_unknown r w e h g f s = (
    h,
    s,
    refl,
    subst
        (λ i. Stored i IsUnclear (conclude E ids o cur entered replies (order_unknown, r)).1.world)
        e (Stored-save IsUnclear _ _ refl),
  )
  conclude-Fate cur entered order_failed r w e h g f s = (
    h,
    s,
    refl,
    subst
        (λ i. Stored i IsCanceled (conclude E ids o cur entered replies (order_failed, r)).1.world)
        e (Stored-save IsCanceled _ _ refl),
  )
  conclude-Fate cur entered order_filled r w e h g f s =
      let i : DemoIntent = record r.intent { status = filled } in
      let price = entered.receipt.avg_price in
      let t : StrategyThread = record (bumped o.times cur) {
        status = in_position;
        opened_at = some o.times.ended;
        filled_avg_price = elim price [ none ↦ replies.mark | some p ↦ some p ];
      } in
      let told = sets_intent o.episode i r in
      let stored : Stored cur.id (λ x. x ≡ t) (save_thread t told.world) =
        Stored-save (λ x. x ≡ t) t told.world refl in
      (
        h,
        s,
        refl,
        (
          save_thread t told.world,
          t,
          entered.stop,
          entered.tp,
          subst (λ k. Dict.get k (save_thread t told.world).threads ≡ some t) e
              (stored.1 ∙ ap some stored.2),
          refl,
          refl,
        ),
      )
  conclude-Fate cur entered order_submitted r w e h g f s =
      let status_of : StrategyThread → Type 0 =
        λ x. x.status ≡ (thread_or o.thread (replies.after_entry w)).status in
      (
        h,
        s,
        refl,
        (
          w,
          g,
          subst
              (λ i.
                Stored i status_of
                  (conclude E ids o cur entered replies (order_submitted, r)).1.world)
              e (Stored-save status_of _ _ f),
        ),
      )

  resolved-IsSaid :
      (outcome : OrderOutcome) (r : Run)
      → receipt.outcome ≡ outcome
      → IsSaid (resolved_outcome outcome replies r).0 receipt replies
  unfolding resolved_outcome
  resolved-IsSaid order_unknown r e = inr (e, answered-IsAnswer replies.order_answer)
  resolved-IsSaid order_filled r e = inl e
  resolved-IsSaid order_submitted r e = inl e
  resolved-IsSaid order_failed r e = inl e

  resolved-entries :
      (outcome : OrderOutcome) (r : Run)
      → entries (resolved_outcome outcome replies r).1.made ≡ entries r.made
  unfolding resolved_outcome
  resolved-entries order_unknown r =
      ap entries (adds_answer-made replies.order_answer _) ∙ entries-append r.made _ ∙ omega arith
  resolved-entries order_filled r = refl
  resolved-entries order_submitted r = refl
  resolved-entries order_failed r = refl

  resolved-seen :
      (outcome : OrderOutcome) (r : Run) (w : World)
      → entry_seen r.made ≡ some w
      → entry_seen (resolved_outcome outcome replies r).1.made ≡ some w
  unfolding resolved_outcome
  resolved-seen order_unknown r w h =
      ap entry_seen (adds_answer-made replies.order_answer _) ∙ entry_seen-kept w r.made _ h
  resolved-seen order_filled r w h = h
  resolved-seen order_submitted r w h = h
  resolved-seen order_failed r w h = h

  -- The thread that the handler goes on with has the status that it found.
  closed-status :
      (r : Run)
      → IsKeyed r.world
      → (thread_or o.thread (close_submission o r).world).status
        ≡ (thread_or o.thread r.world).status
  unfolding close_submission thread_or save_thread
  closed-status r k =
      let t = thread_or o.thread r.world in
      let next : StrategyThread = record (bumped o.times t) {
        entry_submitting_since = none;
        entry_submitted_at = some o.times.submitted_at;
      } in
      let own : (t.id == o.thread.id) ≡ true =
        (string_eq.beq_iff t.id o.thread.id).1 (thread_or-id o.thread r.world k) in
      let found = Dict.get-set_eq o.thread.id t.id next r.world.threads own in
      ap
        (λ (x : Option StrategyThread).
          (elim x as (λ y. StrategyThread) [ none ↦ o.thread | some y ↦ y ]).status)
        found

  pub after_entry-Fate :
      (entered : Entered) (r : Run) (w : World)
      → o.thread.id ≡ id
      → entered.receipt ≡ receipt
      → IsKeyed r.world
      → entries r.made ≡ 1
      → entry_seen r.made ≡ some w
      → r.world ≡ replies.after_entry w
      → EntryFate (after_entry E ids o replies (entered, r))
  unfolding after_entry close_submission
  after_entry-Fate entered r w e q k h g a =
      let closed = close_submission o r in
      let cur = thread_or o.thread closed.world in
      let res = resolved_outcome entered.receipt.outcome replies closed in
      conclude-Fate cur entered res.0 res.1 w
        (thread_or-id o.thread closed.world (save_thread-IsKeyed _ r.world k) ∙ e)
        (resolved-entries entered.receipt.outcome closed ∙ h)
        (resolved-seen entered.receipt.outcome closed w g)
        (closed-status r k ∙ ap (λ x. (thread_or o.thread x).status) a)
        (resolved-IsSaid entered.receipt.outcome closed (ap (λ x. x.outcome) (sym q)))
