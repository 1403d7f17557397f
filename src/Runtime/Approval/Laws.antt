-- ===== src/Runtime/Approval/Laws.antt =====
-- What an approval needs, and what a rejection ends.
use trade_gate.Prelude.{
  ◌<◌, ◌≡◌, refl, ◌⊎◌, true, false, ◌∙◌, sym, ap, subst, Option, none, some, String, List, ◌∷◌,
  arith, contains, ◌==◌, string_eq, Bool-cases, inl, inr,
}
use trade_gate.Dict
use trade_gate.Threads.Types.{StrategyThread}
use trade_gate.Threads.Opening.{is_open}
use trade_gate.Confirm.{Tokens, ConfirmToken, Consumed, ok, refused, intent, consume}
use trade_gate.Confirm.Once.{consume_sound}
use trade_gate.Runtime.World.{World, DemoIntent, pending_approval, intent_status_eq, given_text}
use trade_gate.Runtime.Approval.{
  IntentContent, content_of, intent_fingerprint, IntentError, Answer, gives, fails, By, human,
  agent_by, waiting, waiting_intent, thread_of, ApproveTimes, approval_request, token_answer,
  permit, thread_answer, permitted, begins, approve_intent,
}

pub Answer-cases {ℓ} :
    {A : Type ℓ} (a : Answer A) → ((e : IntentError) × (a ≡ fails e)) ⊎ ((x : A) × (a ≡ gives x))
Answer-cases (fails e) = inl (e, refl)
Answer-cases (gives x) = inr (x, refl)

pub waiting-gives :
    (o : Option DemoIntent) (i : DemoIntent)
    → waiting o ≡ gives i
    → (o ≡ some i) × (i.status ≡ pending_approval)
unfolding waiting
waiting-gives none i h = absurd (ground (arith, h))
waiting-gives (some j) i h = elim (Bool-cases (j.status == pending_approval)) [
  | inl e ↦ (
    ground (arith, h, e),
    ground (arith, h, e, intent_status_eq.beq_iff j.status pending_approval),
  )
  | inr e ↦ absurd (ground (arith, h, e))
]

module _ (hash : IntentContent → String) where
  -- The store of tokens held one for this intent and its present content, or the chat may approve.
  abbrev pub IsPermitted : By → DemoIntent → Option String → ApproveTimes hash → World → Type 0
  IsPermitted agent_by i given c w = w.chat_requires_approval ≡ false
  IsPermitted human i given c w =
      (n : String) × (t : ConfirmToken) × (given ≡ some n)
      × (Dict.get n w.tokens ≡ some t)
      × (t.kind ≡ intent)
      × (t.target_id ≡ i.id)
      × (t.fingerprint ≡ hash (content_of i))
      × (c.check_now < t.expires_at)

  accepted : (r : Tokens × Consumed) (w : World) → (token_answer hash r w).1 ≡ none → r.1 ≡ ok
  unfolding token_answer
  accepted (tokens, ok) w h = refl
  accepted (tokens, refused c) w h = absurd (ground (arith, h))

  permit-none :
      (by : By) (i : DemoIntent) (given : Option String) (c : ApproveTimes hash) (w : World)
      → (permit hash by i given c w).1 ≡ none
      → IsPermitted by i given c w
  unfolding permit token_answer approval_request intent_fingerprint
  permit-none agent_by i given c w h = ground (arith, h)
  permit-none human i given c w h =
      consume_sound (approval_request hash i given c) w.tokens
        (accepted (consume (approval_request hash i given c) w.tokens) w h)

  -- An approval changes nothing but the store of tokens and the list of what is being approved.
  abbrev pub IsUntouched : World → World → Type 0
  IsUntouched before after =
      after ≡ (record before { tokens = after.tokens; approving = after.approving })

  answered-IsUntouched :
      (r : Tokens × Consumed) (w : World) → IsUntouched w (token_answer hash r w).0
  unfolding token_answer
  answered-IsUntouched (tokens, ok) w = refl
  answered-IsUntouched (tokens, refused c) w = refl

  permit-IsUntouched :
      (by : By) (i : DemoIntent) (given : Option String) (c : ApproveTimes hash) (w : World)
      → IsUntouched w (permit hash by i given c w).0
  unfolding permit token_answer
  permit-IsUntouched agent_by i given c w = refl
  permit-IsUntouched human i given c w =
      answered-IsUntouched (consume (approval_request hash i given c) w.tokens) w

  -- What a granted approval found.
  abbrev pub IsGranted :
      By → String → Option String → ApproveTimes hash → World → StrategyThread → DemoIntent → Type 0
  IsGranted by id given c w t i =
      (contains id w.approving ≡ false)
      × (Dict.get id w.intents ≡ some i)
      × (i.status ≡ pending_approval)
      × IsPermitted by i given c w
      × (thread_of i w ≡ some t)
      × (is_open t ≡ true)
      × (w.halted ≡ false)
      × (w.paused ≡ false)

  thread_answer-gives :
      (i j : DemoIntent) (o : Option StrategyThread) (t : StrategyThread) (w : World)
      → thread_answer hash i o w ≡ gives (t, j)
      → (o ≡ some t) × (j ≡ i) × (is_open t ≡ true) × (w.halted ≡ false) × (w.paused ≡ false)
  unfolding thread_answer
  thread_answer-gives i j none t w h = absurd (ground (arith, h))
  thread_answer-gives i j (some s) t w h = ground (arith, h)

  -- What is true of the answer of `permitted` to a permission.
  permitted-gives :
      (i : DemoIntent) (r : World × Option IntentError) (t : StrategyThread) (j : DemoIntent)
      → (permitted hash i r).1 ≡ gives (t, j)
      → (r.1 ≡ none)
        × (thread_of i r.0 ≡ some t)
        × (j ≡ i)
        × (is_open t ≡ true)
        × (r.0.halted ≡ false)
        × (r.0.paused ≡ false)
  unfolding permitted
  permitted-gives i (w, some e) t j h = absurd (ground (arith, h))
  permitted-gives i (w, none) t j h =
      let (a, b, o, x, y) = thread_answer-gives i j (thread_of i w) t w h in (refl, a, b, o, x, y)

  permitted-world : (i : DemoIntent) (r : World × Option IntentError) → (permitted hash i r).0 ≡ r.0
  unfolding permitted
  permitted-world i (w, some e) = refl
  permitted-world i (w, none) = refl

  -- The outcome of an approval.
  abbrev pub IsSound :
      By
      → String
      → Option String
      → ApproveTimes hash
      → World
      → World × Answer (StrategyThread × DemoIntent)
      → Type 0
  IsSound by id given c w (after, fails e) = IsUntouched w after × (after.approving ≡ w.approving)
  IsSound by id given c w (after, gives (t, i)) =
      IsUntouched w after × (after.approving ≡ id ∷ w.approving) × IsGranted by id given c w t i

  begun :
      (w after : World) (id : String)
      → IsUntouched w after
      → IsUntouched w (record after { approving = id ∷ after.approving })
  begun w after id u =
      let with_id : World → World = λ x. record x { approving = id ∷ after.approving } in
      ap with_id u

  begins-IsSound :
      (by : By) (id : String) (given : Option String) (c : ApproveTimes hash) (w : World)
      (r : World × Answer (StrategyThread × DemoIntent))
      → IsUntouched w r.0
      → r.0.approving ≡ w.approving
      → ((t : StrategyThread) (i : DemoIntent) → r.1 ≡ gives (t, i) → IsGranted by id given c w t i)
      → IsSound by id given c w (begins hash id r)
  unfolding begins
  begins-IsSound by id given c w (after, fails e) u a g = (u, a)
  begins-IsSound by id given c w (after, gives (t, i)) u a g =
      (begun w after id u, ap (λ ks. id ∷ ks) a, g t i refl)

  answered-approving :
      (r : Tokens × Consumed) (w : World) → (token_answer hash r w).0.approving ≡ w.approving
  unfolding token_answer
  answered-approving (tokens, ok) w = refl
  answered-approving (tokens, refused c) w = refl

  permit-approving :
      (by : By) (i : DemoIntent) (given : Option String) (c : ApproveTimes hash) (w : World)
      → (permit hash by i given c w).0.approving ≡ w.approving
  unfolding permit
  permit-approving agent_by i given c w = refl
  permit-approving human i given c w =
      answered-approving (consume (approval_request hash i given c) w.tokens) w

  -- The pieces of a granted approval, with the intent and the thread that it gives.
  granted :
      (by : By) (id : String) (given : Option String) (c : ApproveTimes hash) (w : World)
      (t : StrategyThread) (i j : DemoIntent)
      → contains id w.approving ≡ false
      → Dict.get id w.intents ≡ some i
      → i.status ≡ pending_approval
      → IsUntouched w (permit hash by i given c w).0
      → let r = permit hash by i given c w in
        (r.1 ≡ none)
          × (thread_of i r.0 ≡ some t)
          × (j ≡ i)
          × (is_open t ≡ true)
          × (r.0.halted ≡ false)
          × (r.0.paused ≡ false)
        → IsGranted by id given c w t j
  unfolding thread_of
  granted by id given c w t i j b f s u (n, th, e, o, x, y) =
      let ts = ap (λ x. x.threads) u in
      let hs = ap (λ x. x.halted) u in
      let ps = ap (λ x. x.paused) u in
      subst (λ k. IsGranted by id given c w t k) (sym e)
        (
          b,
          f,
          s,
          permit-none by i given c w n,
          subst
              (λ (m : List (String × StrategyThread)).
                (elim (given_text i.thread_id) [ none ↦ none | some k ↦ Dict.get k m ]) ≡ some t)
              ts th,
          o,
          sym hs ∙ x,
          sym ps ∙ y,
        )

  waited-IsSound :
      (by : By) (id : String) (given : Option String) (c : ApproveTimes hash) (w : World)
      (i : DemoIntent)
      → contains id w.approving ≡ false
      → waiting_intent id w ≡ gives i
      → IsSound by id given c w (begins hash id (permitted hash i (permit hash by i given c w)))
  unfolding waiting_intent thread_of
  waited-IsSound by id given c w i b h =
      let r = permit hash by i given c w in
      let out = permitted hash i r in
      let same = permitted-world i r in
      let u = permit-IsUntouched by i given c w in
      let (f, s) = waiting-gives (Dict.get id w.intents) i h in
      begins-IsSound by id given c w out (subst (λ x. IsUntouched w x) (sym same) u)
        (ap (λ x. x.approving) same ∙ permit-approving by i given c w)
        (λ t j g. granted by id given c w t i j b f s u (permitted-gives i r t j g))

  to_permitted :
      (by : By) (id : String) (given : Option String) (c : ApproveTimes hash) (w : World)
      (i : DemoIntent)
      → contains id w.approving ≡ false
      → waiting_intent id w ≡ gives i
      → approve_intent hash by id given c w
        ≡ begins hash id (permitted hash i (permit hash by i given c w))
  unfolding approve_intent
  to_permitted by id given c w i b f = rw (b, f, approve_intent) refl

  -- Whoever approves: nothing of the shared state changes but the tokens and the list of what is
  -- being approved. The approval is given
  -- only for an intent that the store has, that waits for approval and is not being approved, with
  -- the permission (of a person: a token that the store held for this intent and its content, before
  -- it expired; of the chat: the setting that lets it), for a thread that the store has and that is
  -- open, outside of a halt and a pause; and then the intent is added to what is being approved. An error leaves the
  -- list of what is being approved.
  pub approve_intent-IsSound :
      (by : By) (id : String) (given : Option String) (c : ApproveTimes hash) (w : World)
      → IsSound by id given c w (approve_intent hash by id given c w)
  unfolding approve_intent
  approve_intent-IsSound by id given c w = elim (Bool-cases (contains id w.approving)) [
    | inl b ↦ rw (b, approve_intent) (refl, refl)
    | inr b ↦ elim (Answer-cases (waiting_intent id w)) [
      | inl (e, f) ↦ rw (b, f, approve_intent) (refl, refl)
      | inr (i, f) ↦
          subst (λ r. IsSound by id given c w r) (sym (to_permitted by id given c w i b f))
            (waited-IsSound by id given c w i b f)
    ]
  ]
