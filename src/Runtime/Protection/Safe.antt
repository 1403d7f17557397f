-- ===== src/Runtime/Protection/Safe.antt =====
-- What `placeProtection` leaves of a thread in position.
use trade_gate.Prelude.{
  ◌≡◌, refl, ◌⊎◌, Bool, true, false, ◌∙◌, subst, Option, none, some, String, List, [], ◌∷◌, ◌++◌,
  contains, string_eq, Bool-cases, inl, inr,
}
use trade_gate.Dict
use trade_gate.Threads.Types.{StrategyThread, protection_missing}
use trade_gate.Runtime.World.{
  World, OrderReceipt, order_unknown, outcome_eq, save_thread, thread_or, Ids, s_leg, given_text,
}
use trade_gate.Runtime.Protection.{
  leg_of, leg_reply, after_fate, place_stop, place_legs, may_protect, place_protection, stands,
}
use trade_gate.Runtime.Stops.{
  ErrorTexts, seen_of, Placed, Replies, Times, Sent, Going, StopFate, uncertain, answered, doubted,
  standing, looked_up, stop_fate, stop_sent, outcome_is,
}
use trade_gate.Runtime.Protection.Ends.{
  IsFlat, compensate-Stored, contains-last, leg_of-id, leg_reply-Fits, minted-Fits, missing-Stored,
  take_profit-Stored,
}
use trade_gate.Runtime.Protection.Answers.{Confirmed, IsHonest, stop_fate-IsHonest}
use trade_gate.Runtime.Protection.Stored.{Fits, IsKeyed, KeepsKeys, Stored, thread_or-id}

module _ (E : ErrorTexts) (ids : Ids) (c : Times) where
  -- What other handlers do keeps the threads under their ids.
  abbrev pub KeepKeys : Replies → Type 0
  KeepKeys r =
      KeepsKeys r.after_stop
      × KeepsKeys r.after_lookup
      × KeepsKeys r.after_again
      × KeepsKeys r.after_close
      × KeepsKeys r.after_take_profit

  -- What becomes of a thread with the stop `cid`: the stop is among its legs on the exchange's
  -- word, or it is closed on the exchange's word, or it asks for attention.
  abbrev pub IsCovered : String → OrderReceipt → Replies → StrategyThread → Type 0
  IsCovered cid first replies s =
      (Confirmed E first replies × (contains cid s.protection_client_order_ids ≡ true))
      ⊎ (IsFlat replies.close s
          ⊎ ((seen_of replies.lookup ≡ none) × (s.attention ≡ some protection_missing)))

  -- The receipt of the stop that was placed with the entry, or the reply to the one sent now.
  abbrev pub first_reply : Option Placed → Replies → OrderReceipt
  first_reply none replies = replies.stop
  first_reply (some placed) replies = placed.receipt

  leg_reply-first :
      (stop : Option Placed) (sent : Sent) (replies : Replies) (g : Going)
      → (leg_reply stop sent replies.stop replies.after_stop g).0 ≡ first_reply stop replies
  unfolding leg_reply
  leg_reply-first none sent replies g = refl
  leg_reply-first (some placed) sent replies g = refl

  looked_up-Fits :
      (id cid price : String) (r : OrderReceipt) (seen : Option Bool) (replies : Replies)
      (g : Going)
      → KeepKeys replies
      → Fits id g
      → Fits id (looked_up E cid price r seen replies g).1
  unfolding looked_up
  looked_up-Fits id cid price r none replies g k f = f
  looked_up-Fits id cid price r (some true) replies g k f = f
  looked_up-Fits id cid price r (some false) replies g k f = (f.0, k.2 g.world f.1)

  stop_fate-Fits :
      (id cid price : String) (first : OrderReceipt) (replies : Replies) (g : Going)
      → KeepKeys replies
      → Fits id g
      → Fits id (stop_fate E cid price first replies g).1
  unfolding stop_fate
  stop_fate-Fits id cid price first replies g k f =
      elim (Bool-cases (outcome_is order_unknown (doubted E first))) [
        | inr u ↦ rw (u, stop_fate) f
        | inl u ↦
            rw (u, stop_fate)
              (looked_up-Fits id cid price (doubted E first) (seen_of replies.lookup) replies
                (record g { world = replies.after_lookup g.world }) k (f.0, k.1 g.world f.1))
      ]

  after_fate-Stored :
      (id cid : String) (tp : Option Placed) (first : OrderReceipt) (replies : Replies)
      (legs : List String) (fate : StopFate) (g : Going)
      → KeepKeys replies
      → Fits id g
      → IsHonest E first replies fate
      → Stored id
          (IsCovered cid first replies)
          (after_fate E ids c cid tp replies legs (fate, g)).world
  unfolding after_fate
  after_fate-Stored id cid tp first replies legs uncertain g k f h =
      let (s, e, a) = missing-Stored ids c id g f.0 in (s, e, inr (inr (h, a)))
  after_fate-Stored id cid tp first replies legs (answered r) g k f h =
      elim (Bool-cases (stands (standing E r))) [
        | inl b ↦
            let (s, e, a) =
              take_profit-Stored ids c id cid tp replies (legs ++ cid ∷ []) g k.4 f
                (contains-last cid legs) in
            rw (b, after_fate) (s, e, inl (h b, a))
        | inr b ↦
            let (s, e, a) = compensate-Stored ids c id replies g k.3 f in
            rw (b, after_fate) (s, e, inr (inl a))
      ]

  place_stop-Stored :
      (id price : String) (stop tp : Option Placed) (replies : Replies) (legs : List String)
      (g : Going)
      → KeepKeys replies
      → Fits id g
      → Stored id
          (IsCovered (leg_of ids stop s_leg g.thread).0 (first_reply stop replies) replies)
          (place_stop E ids c price stop tp replies legs g).world
  unfolding place_stop
  place_stop-Stored id price stop tp replies legs g k f =
      let m = leg_of ids stop s_leg g.thread in
      let minted : Going = record g { thread = m.1; world = save_thread m.1 g.world } in
      let sent = stop_sent m.0 price in
      let step = leg_reply stop sent replies.stop replies.after_stop minted in
      let fits =
        leg_reply-Fits ids c id stop sent replies.stop replies.after_stop minted k.0
          (minted-Fits ids c id m.1 g (leg_of-id ids c stop s_leg g.thread ∙ f.0) f) in
      let fate = stop_fate E m.0 price step.0 replies step.1 in
      let r =
        after_fate-Stored id m.0 tp step.0 replies legs fate.0 fate.1 k
          (stop_fate-Fits id m.0 price step.0 replies step.1 k fits)
          (stop_fate-IsHonest E m.0 price step.0 replies step.1) in
      subst
        (λ first.
          Stored id (IsCovered m.0 first replies)
            (place_stop E ids c price stop tp replies legs g).world)
        (leg_reply-first stop sent replies minted) r

  place_legs-Stored :
      (id price : String) (stop tp : Option Placed) (replies : Replies) (g : Going)
      → KeepKeys replies
      → Fits id g
      → given_text g.thread.stop_price ≡ some price
      → Stored id
          (IsCovered (leg_of ids stop s_leg g.thread).0 (first_reply stop replies) replies)
          (place_legs E ids c stop tp replies g).world
  unfolding place_legs
  place_legs-Stored id price stop tp replies g k f p =
      rw (p, place_legs) (place_stop-Stored id price stop tp replies _ g k f)

  -- A thread with a stop price that the method takes on is never left without its stop in silence.
  -- If every other handler keeps the threads of the store under their ids: when the method ends,
  -- the store's thread either has the stop's id among its legs, and then the exchange confirmed
  -- the stop, at once, when looked up, or on the second sending; or it is closed, and the exchange
  -- confirmed the closing; or it carries the mark of a failed closing, or that of a missing
  -- protection, and then the lookup gave no answer.
  pub place_protection-IsCovered :
      (t : StrategyThread) (price : String) (stop tp : Option Placed) (replies : Replies)
      (w : World)
      → IsKeyed w
      → KeepKeys replies
      → may_protect E ids c t w ≡ true
      → given_text (thread_or t w).stop_price ≡ some price
      → Stored t.id
          (IsCovered (leg_of ids stop s_leg (thread_or t w)).0 (first_reply stop replies) replies)
          (place_protection E ids c t stop tp replies w).0
  unfolding place_protection thread_or
  place_protection-IsCovered t price stop tp replies w keyed k m p =
      let begun : World = record w { retried = Dict.set t.id c.retried w.retried } in
      let g : Going = record { world = begun; thread = thread_or t w; sent = [] } in
      rw (m, place_protection)
        (place_legs-Stored t.id price stop tp replies g k (thread_or-id t w keyed, keyed) p)
