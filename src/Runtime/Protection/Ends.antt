-- ===== src/Runtime/Protection/Ends.antt =====
-- The ends of `placeProtection`, in the store.
use trade_gate.Prelude.{
  ◌≡◌, refl, ◌⊎◌, Bool, true, false, ◌∙◌, subst, Option, none, some, String, List, [], ◌∷◌, ◌++◌,
  arith, contains, string_eq, any, Option-cases, Bool-cases, inl, inr, get_elem?, beq_refl,
  if◌then◌else◌,
}
use trade_gate.Graph.Types.{closed}
use trade_gate.Threads.Types.{StrategyThread, protection_missing, close_failed}
use trade_gate.Runtime.World.{
  Others, OrderReceipt, outcome_eq, save_thread, Ids, next_leg_cid, LegCode, t_leg, x_leg,
  given_text, resolve_open_intents,
}
use trade_gate.Runtime.Protection.{
  missing, flattened, compensate, protected, leg_of, leg_reply, place_take_profit, stands,
}
use trade_gate.Runtime.Stops.{
  CloseReply, Placed, Replies, Times, Sent, is_take_profit_id, Going, take_profit_sent, close_sent,
  waits,
}
use trade_gate.Runtime.Protection.Stored.{
  Fits, KeepsKeys, Stored, Stored-save, save_thread-IsKeyed, thread_or-id,
}

abbrev HasLeg : String → StrategyThread → Type 0
HasLeg cid s = contains cid s.protection_client_order_ids ≡ true

contains-append :
    (k : String) (xs ys : List String) → contains k xs ≡ true → contains k (xs ++ ys) ≡ true
contains-append k [] ys h = absurd (ground (arith, h))
contains-append k (x ∷ xs) ys h = ground (arith, h, contains-append k xs ys)

pub contains-last : (k : String) (xs : List String) → contains k (xs ++ k ∷ []) ≡ true
contains-last k [] = ground (arith, beq_refl k)
contains-last k (x ∷ xs) = ground (arith, contains-last k xs)

protected-Stored :
    (id cid : String) (c : Times) (legs : List String) (g : Going)
    → Fits id g
    → contains cid legs ≡ true
    → Stored id (HasLeg cid) (protected c legs g).world
unfolding protected
protected-Stored id cid c legs g f h =
    subst (λ i. Stored i (HasLeg cid) (protected c legs g).world)
      (thread_or-id g.thread g.world f.1 ∙ f.0) (Stored-save (HasLeg cid) _ g.world h)

kept_leg :
    (cid other : String) (legs : List String) (b : Bool)
    → contains cid legs ≡ true
    → contains cid (if b then legs ++ other ∷ [] else legs) ≡ true
kept_leg cid other legs true h = contains-append cid legs (other ∷ []) h
kept_leg cid other legs false h = h

-- The thread is closed on the exchange's word, or it asks for attention.
abbrev pub IsFlat : CloseReply → StrategyThread → Type 0
IsFlat reply s =
    ((s.status ≡ closed) × (reply.closed ≡ true) × (given_text reply.error ≡ none))
    ⊎ (s.attention ≡ some close_failed)

flattened-Stored :
    (c : Times) (reply : CloseReply) (g : Going)
    → Stored g.thread.id (IsFlat reply) (flattened c reply g).world
unfolding flattened resolve_open_intents
flattened-Stored c reply g = elim (Bool-cases reply.closed) [
  | inr b ↦ rw (b, flattened) (Stored-save _ _ g.world (inr refl))
  | inl b ↦ elim (Option-cases (given_text reply.error)) [
    | inr (x, e) ↦ rw (b, e, flattened) (Stored-save _ _ g.world (inr refl))
    | inl e ↦ rw (b, e, flattened) (Stored-save _ _ g.world (inl (refl, refl, refl)))
  ]
]

module _ (ids : Ids) (c : Times) where
  pub leg_of-id :
      (placed : Option Placed) (leg : LegCode) (t : StrategyThread)
      → (leg_of ids placed leg t).1.id ≡ t.id
  unfolding leg_of next_leg_cid
  leg_of-id none leg t = refl
  leg_of-id (some placed) leg t = refl

  pub leg_reply-Fits :
      (id : String) (placed : Option Placed) (s : Sent) (r : OrderReceipt) (others : Others)
      (g : Going)
      → KeepsKeys others
      → Fits id g
      → Fits id (leg_reply placed s r others g).1
  unfolding leg_reply
  leg_reply-Fits id none s r others g k (e, h) = (e, k g.world h)
  leg_reply-Fits id (some placed) s r others g k f = f

  -- A leg that is minted and saved leaves the handler's thread under its id.
  pub minted-Fits :
      (id : String) (t : StrategyThread) (g : Going)
      → t.id ≡ id
      → Fits id g
      → Fits id (record g { thread = t; world = save_thread t g.world })
  minted-Fits id t g e f = (e, save_thread-IsKeyed t g.world f.1)

  pub take_profit-Stored :
      (id cid : String) (placed : Option Placed) (replies : Replies) (legs : List String)
      (g : Going)
      → KeepsKeys replies.after_take_profit
      → Fits id g
      → contains cid legs ≡ true
      → Stored id (HasLeg cid) (place_take_profit ids c placed replies legs g).world
  unfolding place_take_profit
  take_profit-Stored id cid placed replies legs g k f h =
      elim (Option-cases (given_text (get_elem? g.thread.take_profits 0))) [
        | inl e ↦ rw (e, place_take_profit) (protected-Stored id cid c legs g f h)
        | inr (price, e) ↦ elim (Bool-cases (any is_take_profit_id legs)) [
          | inl a ↦ rw (e, a, place_take_profit) (protected-Stored id cid c legs g f h)
          | inr a ↦
              let m = leg_of ids placed t_leg g.thread in
              let minted : Going = record g { thread = m.1; world = save_thread m.1 g.world } in
              let step =
                leg_reply placed (take_profit_sent m.0 price) replies.take_profit
                  replies.after_take_profit minted in
              let fits =
                leg_reply-Fits id placed (take_profit_sent m.0 price) replies.take_profit
                  replies.after_take_profit minted k
                  (minted-Fits id m.1 g (leg_of-id placed t_leg g.thread ∙ f.0) f) in
              rw (e, a, place_take_profit)
                (protected-Stored id cid c (if stands step.0 then legs ++ m.0 ∷ [] else legs) step.1
                  fits (kept_leg cid m.0 legs (stands step.0) h))
        ]
      ]

  pub compensate-Stored :
      (id : String) (replies : Replies) (g : Going)
      → KeepsKeys replies.after_close
      → Fits id g
      → Stored id (IsFlat replies.close) (compensate ids c replies g).world
  unfolding compensate next_leg_cid
  compensate-Stored id replies g k f =
      let m = next_leg_cid ids g.thread x_leg in
      let minted : Going = record g { thread = m.1; world = save_thread m.1 g.world } in
      let waited = waits (close_sent m.0) replies.after_close minted in
      subst (λ i. Stored i (IsFlat replies.close) (compensate ids c replies g).world) f.0
        (flattened-Stored c replies.close waited)

  pub missing-Stored :
      (id : String) (g : Going)
      → g.thread.id ≡ id
      → Stored id (λ s. s.attention ≡ some protection_missing) (missing c g).world
  unfolding missing
  missing-Stored id g e =
      subst (λ i. Stored i (λ s. s.attention ≡ some protection_missing) (missing c g).world) e
        (Stored-save (λ s. s.attention ≡ some protection_missing) _ g.world refl)
