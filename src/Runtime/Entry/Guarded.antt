-- ===== src/Runtime/Entry/Guarded.antt =====
-- What is true at the moment an entry is sent.
use trade_gate.Prelude.{
  All, ◌+◌, ◌≡◌, refl, Bool, true, false, not, ◌&&◌, ◌∙◌, sym, ap, subst, Option, none, some,
  String, List, [], ◌∷◌, ◌++◌, contains, string_eq, Option-cases, Bool-cases, inl, inr, get_elem?,
}
use trade_gate.Dict
use trade_gate.Numbers.{Numbers}
use trade_gate.Threads.Types.{StrategyThread}
use trade_gate.Gates.Types.{GateConfig}
use trade_gate.Runtime.World.{
  World, Others, DemoIntent, OrderOutcome, order_filled, order_submitted, order_failed,
  order_unknown, save_thread, thread_or, save_intent, Ids, next_leg_cid, s_leg, t_leg, given_text,
}
use trade_gate.Runtime.Stops.{ErrorTexts}
use trade_gate.Runtime.Protection.Stored.{
  IsKeyed, save_thread-IsKeyed, thread_or-id, Stored, Stored-save,
}
use trade_gate.Runtime.Preflight.{
  OpenBlocker, Abort, leverage_call, margin_call, entry_call, protected_entry_call, Made,
  EntryReplies, EntryTimes, Ending, Run, calls, waits_for, preflight_open,
}
use trade_gate.Runtime.Entry.{
  conclude, after_entry, enter, waits_for_sizing, sizing_abort, prepare, check_sizing, checked,
  check_again, opening_of, reserve, execute_open, awaits_entry, protects,
}
use trade_gate.Runtime.Sending.{
  Opening, abort, Entered, enter_alone, enter_protected, close_submission, resolved_outcome,
  is_market, tp_choice,
}
use trade_gate.Runtime.Entry.Said.{adds_answer-made}
use trade_gate.Runtime.Entry.Answers.{either, either_known, either_choice, first_leg}

module _ (id cid : String) where
  -- A thread that is saved with the ids of its entry and its stop.
  saved_under :
      (t : StrategyThread) (stop : String) (w : World)
      → t.id ≡ id
      → t.entry_client_order_id ≡ some cid
      → contains stop t.protection_client_order_ids ≡ true
      → Stored id
          (λ s.
            (s.entry_client_order_id ≡ some cid)
            × (contains stop s.protection_client_order_ids ≡ true))
          (save_thread t w)
  saved_under t stop w i e c =
      subst
        (λ k.
          Stored k
            (λ s.
              (s.entry_client_order_id ≡ some cid)
              × (contains stop s.protection_client_order_ids ≡ true))
            (save_thread t w))
        i (Stored-save _ t w (e, c))

  -- The store's thread holds the client id of its entry.
  abbrev pub Reserved : World → Type 0
  Reserved w = Stored id (λ s. s.entry_client_order_id ≡ some cid) w

  -- An entry is sent under the client id that the store's thread holds, and not in a halt; where its
  -- stop is sent with it, the store's thread holds the stop's client id too.
  abbrev pub IsGuarded : Made → Type 0
  IsGuarded m = elim m.call [
    | entry_call q ↦ (q.client_order_id ≡ cid) × (m.seen.halted ≡ false) × Reserved m.seen
    | protected_entry_call q price stop tp ↦
        (q.client_order_id ≡ cid)
        × (m.seen.halted ≡ false)
        × Stored id
            (λ s.
              (s.entry_client_order_id ≡ some cid)
              × (contains stop s.protection_client_order_ids ≡ true))
            m.seen
    | _ ↦ Unit
  ]

  abbrev pub AreGuarded : List Made → Type 0
  AreGuarded ms = All IsGuarded ms

  add_guarded :
      (ms : List Made) (m : Made) → AreGuarded ms → IsGuarded m → AreGuarded (ms ++ m ∷ [])
  add_guarded [] m h g = (g, tt)
  add_guarded (n ∷ ms) m h g = (h.0, add_guarded ms m h.1 g)

  -- The store is in order and holds the client id.
  abbrev pub Ready : World → Type 0
  Ready w = IsKeyed w × Reserved w

  abbrev pub KeepsReady : Others → Type 0
  KeepsReady others = (w : World) → Ready w → Ready (others w)

  save_intent-Ready :
      (ep : Option String) (i : DemoIntent) (w : World) → Ready w → Ready (save_intent ep i w)
  unfolding save_intent
  save_intent-Ready none i w h = h
  save_intent-Ready (some ep) i w h = h

  resolved-guarded :
      (outcome : OrderOutcome) (replies : EntryReplies) (r : Run)
      → AreGuarded r.made
      → AreGuarded (resolved_outcome outcome replies r).1.made
  unfolding resolved_outcome
  resolved-guarded order_unknown replies r h =
      subst AreGuarded (sym (adds_answer-made replies.order_answer _)) (add_guarded r.made _ h tt)
  resolved-guarded order_filled replies r h = h
  resolved-guarded order_submitted replies r h = h
  resolved-guarded order_failed replies r h = h

  module _ (E : ErrorTexts) (ids : Ids) (o : Opening) (replies : EntryReplies) where
    conclude-made :
        (cur : StrategyThread) (entered : Entered) (outcome : OrderOutcome) (r : Run)
        → (conclude E ids o cur entered replies (outcome, r)).1.made ≡ r.made
    unfolding conclude protects
    conclude-made cur entered order_unknown r = refl
    conclude-made cur entered order_failed r = refl
    conclude-made cur entered order_filled r = refl
    conclude-made cur entered order_submitted r = refl

    after_entry-guarded :
        (entered : Entered) (r : Run)
        → AreGuarded r.made
        → AreGuarded (after_entry E ids o replies (entered, r)).1.made
    unfolding after_entry close_submission
    after_entry-guarded entered r h =
        let closed = close_submission o r in
        let res = resolved_outcome entered.receipt.outcome replies closed in
        subst AreGuarded (sym (conclude-made (thread_or o.thread closed.world) entered res.0 res.1))
          (resolved-guarded entered.receipt.outcome replies closed h)

    enter_alone-guarded :
        (r : Run)
        → o.cid ≡ cid
        → AreGuarded r.made
        → r.world.halted ≡ false
        → Ready r.world
        → AreGuarded (enter_alone o replies r).1.made
    unfolding enter_alone
    enter_alone-guarded r e h z k = add_guarded r.made _ h (e, z, k.1)

    reserved_thread :
        (w : World)
        → o.minted.id ≡ id
        → Ready w
        → ((thread_or o.minted w).entry_client_order_id ≡ some cid)
          × ((thread_or o.minted w).id ≡ id)
    unfolding thread_or
    reserved_thread w e (k, (s, g, q)) =
        let found : Dict.get o.minted.id w.threads ≡ some s =
          ap (λ x. Dict.get x w.threads) e ∙ g in
        rw (found, thread_or) (q, k id s g)

    enter_protected-guarded :
        (price : String) (r : Run)
        → o.cid ≡ cid
        → o.minted.id ≡ id
        → AreGuarded r.made
        → r.world.halted ≡ false
        → Ready r.world
        → AreGuarded (enter_protected ids o price replies r).1.made
    unfolding enter_protected next_leg_cid save_thread
    enter_protected-guarded price r e u h z k =
        let (q, i) = reserved_thread r.world u k in
        let t = thread_or o.minted r.world in
        let stop = next_leg_cid ids t s_leg in
        let tp = next_leg_cid ids stop.1 t_leg in
        let at = given_text (get_elem? o.thread.take_profits 0) in
        let legs = tp_choice at (stop.0 ∷ tp.0 ∷ []) (stop.0 ∷ []) in
        let saved : StrategyThread = record (tp_choice at tp.1 stop.1) {
          protection_client_order_ids = legs;
        } in
        let has_id : saved.id ≡ id = either_choice (λ (x : StrategyThread). x.id ≡ id) at i i in
        let has_cid : saved.entry_client_order_id ≡ some cid =
          either_choice (λ (x : StrategyThread). x.entry_client_order_id ≡ some cid) at q q in
        let has_stop : contains stop.0 legs ≡ true =
          either_choice (λ ls. contains stop.0 ls ≡ true) at (first_leg stop.0 (tp.0 ∷ []))
            (first_leg stop.0 []) in
        add_guarded r.made _ h (e, z, saved_under saved stop.0 r.world has_id has_cid has_stop)

    enter-guarded :
        (can_protect : Bool) (r : Run)
        → o.cid ≡ cid
        → o.minted.id ≡ id
        → AreGuarded r.made
        → r.world.halted ≡ false
        → Ready r.world
        → AreGuarded (enter E ids can_protect o replies r).1.made
    unfolding enter
    enter-guarded can_protect r e u h z k =
        let alone =
          after_entry-guarded (enter_alone o replies r).0 (enter_alone o replies r).1
            (enter_alone-guarded r e h z k) in
        elim (Bool-cases (can_protect && is_market o.thread.entry.type)) [
          | inr b ↦ rw (b, enter) alone
          | inl b ↦ elim (Option-cases (given_text o.thread.stop_price)) [
            | inl f ↦ rw (b, f, enter) alone
            | inr (price, f) ↦
                let s = enter_protected ids o price replies r in
                rw (b, f, enter)
                  (after_entry-guarded s.0 s.1 (enter_protected-guarded price r e u h z k))
          ]
        ]

    -- What other handlers do until the entry is sent keeps the store ready.
    abbrev pub KeepReady : Type 0
    KeepReady =
        KeepsReady replies.after_account
        × KeepsReady replies.after_sizing
        × KeepsReady replies.after_leverage
        × KeepsReady replies.after_margin

    module _ (N : Numbers) (cfg : GateConfig N) (wording : Abort → String) (can_protect : Bool)
        (e : o.cid ≡ cid) (u : o.minted.id ≡ id) (k : KeepReady) where
      abbrev Guards : Ending × Run → Type 0
      Guards x = AreGuarded x.1.made

      prepare-guarded :
          (r : Run)
          → AreGuarded r.made
          → Ready r.world
          → Guards (prepare N cfg wording E ids can_protect o replies r)
      unfolding prepare abort
      prepare-guarded r h q =
          let r1 = calls leverage_call replies.after_leverage r in
          let r2 = calls margin_call replies.after_margin r1 in
          let h1 : AreGuarded r1.made = add_guarded r.made _ h tt in
          let h2 : AreGuarded r2.made = add_guarded r1.made _ h1 tt in
          let q2 : Ready r2.world = k.3 r1.world (k.2 r.world q) in
          either Guards (not replies.leverage.ok) h1 (
            either Guards (not replies.margin.ok) h2 (
              either_known Guards r2.world.halted h2
                (λ z. enter-guarded can_protect r2 e u h2 z q2)))

      check_sizing-guarded :
          (r : Run)
          → AreGuarded r.made
          → Ready r.world
          → Guards (check_sizing N cfg wording E ids can_protect o replies r)
      unfolding check_sizing abort
      check_sizing-guarded r h q =
          let asks = N.lt (N.of_text "0") (N.of_text r.intent.sizing.risk_pct) in
          let w = waits_for_sizing N cfg wording replies r in
          let h' = either {A = Run} (λ x. AreGuarded x.made) asks h h in
          let q' = either {A = Run} (λ x. Ready x.world) asks (k.1 r.world q) q in
          elim (Option-cases (sizing_abort N cfg wording o replies w)) [
            | inl f ↦ rw (f, check_sizing) (prepare-guarded w h' q')
            | inr (why, f) ↦ rw (f, check_sizing) h'
          ]

      checked-guarded :
          (bs : List OpenBlocker) (r : Run)
          → AreGuarded r.made
          → Ready r.world
          → Guards (checked N cfg wording E ids can_protect bs o replies r)
      unfolding checked abort
      checked-guarded [] r h q = check_sizing-guarded r h q
      checked-guarded (b ∷ bs) r h q = h

      check_again-guarded :
          (r : Run)
          → AreGuarded r.made
          → Ready r.world
          → Guards (check_again N cfg wording E ids can_protect o replies r)
      unfolding check_again
      check_again-guarded r h q =
          let w = waits_for replies.after_account r in
          checked-guarded (preflight_open o.thread.symbol o.thread.id replies.account w.world) w h
            (k.0 r.world q)

-- An entry is never sent in a halt, nor under a client id that the store does not hold. If the store
-- keeps its threads under their ids, and what other handlers do until the entry is sent keeps that
-- and the client id of the thread: at the moment an entry is sent, the halt is off, and the store's
-- thread holds the client id of the entry, and that of the stop where the two go out together.
pub execute_open-guarded :
    (N : Numbers) (cfg : GateConfig N) (wording : Abort → String) (E : ErrorTexts) (ids : Ids)
    (can_protect : Bool) (thread : StrategyThread) (i : DemoIntent) (ep : Option String)
    (c : EntryTimes) (replies : EntryReplies) (w : World)
    → let o = opening_of N cfg wording E ids can_protect ep c (thread_or thread w) in
      IsKeyed w
      → KeepReady thread.id o.cid E ids o replies
      → AreGuarded thread.id o.cid
          (execute_open N cfg wording E ids can_protect thread i ep c replies w).1.made
unfolding execute_open reserve opening_of next_leg_cid
execute_open-guarded N cfg wording E ids can_protect thread i ep c replies w keyed k =
    let t = thread_or thread w in
    let o = opening_of N cfg wording E ids can_protect ep c t in
    let r = reserve N cfg wording E ids can_protect o i w in
    let same : t.id ≡ thread.id = thread_or-id thread w keyed in
    let t' : StrategyThread = record o.minted {
      entry_client_order_id = some o.cid;
      entry_submitting_since = some c.submitting;
      entry_submitted_at = none;
      version = t.version + 1;
      updated_at = c.updated;
    } in
    let holds : Reserved thread.id o.cid (save_thread t' w) =
      subst (λ x. Reserved x o.cid (save_thread t' w)) same (Stored-save _ t' w refl) in
    let ready = save_intent-Ready thread.id o.cid ep _ _ (save_thread-IsKeyed t' w keyed, holds) in
    either {A = Ending × Run} (λ x. AreGuarded thread.id o.cid x.1.made)
      (awaits_entry N cfg wording E ids can_protect t)
      (check_again-guarded thread.id o.cid E ids o replies N cfg wording can_protect refl same k r
        tt ready)
      tt
