-- ===== src/Runtime/Protection/Answers.antt =====
-- What the replies to a stop say of it.
use trade_gate.Prelude.{
  ◌≡◌, refl, ◌⊎◌, Bool, true, false, Option, none, some, String, arith, string_eq, Bool-cases, inl,
  inr, ◌&&◌, if◌then◌else◌,
}
use mathlib.Core.Bool.{decide}
use trade_gate.Runtime.World.{
  OrderReceipt, OrderOutcome, order_filled, order_submitted, order_failed, order_unknown,
  outcome_eq, OrderOutcome-discrete,
}
use trade_gate.Runtime.Protection.{stands}
use trade_gate.Runtime.Stops.{
  ErrorTexts, seen_of, Replies, Going, StopFate, uncertain, answered, doubted, resent, standing,
  looked_up, stop_fate, outcome_is, as_submitted,
}

outcome_cases :
    (o p : OrderOutcome)
    → o ≡ p
    → ((o ≡ order_filled) ⊎ (o ≡ order_submitted)) ⊎ ((o ≡ order_failed) ⊎ (o ≡ order_unknown))
outcome_cases o order_filled e = inl (inl e)
outcome_cases o order_submitted e = inl (inr e)
outcome_cases o order_failed e = inr (inl e)
outcome_cases o order_unknown e = inr (inr e)

-- What a reply of the exchange says of an order.
abbrev pub Accepted : OrderReceipt → Type 0
Accepted r = (r.outcome ≡ order_filled) ⊎ (r.outcome ≡ order_submitted)

abbrev pub Refused : OrderReceipt → Type 0
Refused r = r.outcome ≡ order_failed

module _ (E : ErrorTexts) where
  abbrev Certain : OrderReceipt → Type 0
  Certain r = E.is_transport r.error ≡ false

  abbrev Doubtful : OrderReceipt → Type 0
  Doubtful r = (E.is_transport r.error ≡ true) ⊎ (r.outcome ≡ order_unknown)

  -- The exchange says that a stop of ours stands: the first reply says so, or it leaves the fate
  -- open and the lookup finds the stop, or finds none and the second reply says so.
  abbrev pub Confirmed : OrderReceipt → Replies → Type 0
  Confirmed first replies =
      (Certain first × (Accepted first ⊎ (Refused first × (E.is_standing first.error ≡ true))))
      ⊎ (Doubtful first
          × ((seen_of replies.lookup ≡ some true)
              ⊎ ((seen_of replies.lookup ≡ some false)
                  × Certain replies.again
                  × (Accepted replies.again
                      ⊎ (Refused replies.again
                          × ((E.is_duplicate replies.again.error ≡ true)
                              ⊎ (E.is_standing replies.again.error ≡ true)))))))

  stands_of : (r : OrderReceipt) → stands r ≡ true → Accepted r
  stands_of r h = elim (outcome_cases r.outcome r.outcome refl) [
    | inl a ↦ a
    | inr (inl f) ↦ absurd (ground (arith, h, f, outcome_eq.beq_iff r.outcome order_failed))
    | inr (inr u) ↦ absurd (ground (arith, h, u, outcome_eq.beq_iff r.outcome order_unknown))
  ]

  standing_of :
      (r : OrderReceipt)
      → stands (standing E r) ≡ true
      → Accepted r ⊎ (Refused r × (E.is_standing r.error ≡ true))
  unfolding standing
  standing_of r h = elim (Bool-cases (E.is_standing r.error)) [
    | inr f ↦ inl (stands_of r (ground (arith, h, f)))
    | inl f ↦ elim (Bool-cases (outcome_is order_failed r)) [
      | inl o ↦ inr ((outcome_eq.beq_iff r.outcome order_failed).0 o, f)
      | inr o ↦ inl (stands_of r (ground (arith, h, f, o)))
    ]
  ]

  unknown_stands :
      (r : OrderReceipt) → stands (standing E (record r { outcome = order_unknown })) ≡ false
  unfolding standing OrderOutcome-discrete decide
  unknown_stands r = refl

  resent_direct :
      (r : OrderReceipt)
      → Certain r
      → stands (
          standing E
            (if outcome_is order_failed r && E.is_duplicate r.error then as_submitted r else r))
        ≡ true
      → Accepted r
        ⊎ (Refused r × ((E.is_duplicate r.error ≡ true) ⊎ (E.is_standing r.error ≡ true)))
  resent_direct r t h = elim (Bool-cases (outcome_is order_failed r)) [
    | inr o ↦ elim (standing_of r (ground (arith, h, o))) [
      | inl a ↦ inl a
      | inr (f, s) ↦ inr (f, inr s)
    ]
    | inl o ↦ elim (Bool-cases (E.is_duplicate r.error)) [
      | inl d ↦ inr ((outcome_eq.beq_iff r.outcome order_failed).0 o, inl d)
      | inr d ↦ elim (standing_of r (ground (arith, h, o, d))) [
        | inl a ↦ inl a
        | inr (f, s) ↦ inr (f, inr s)
      ]
    ]
  ]

  resent_of :
      (r : OrderReceipt)
      → stands (standing E (resent E r)) ≡ true
      → Certain r
        × (Accepted r
            ⊎ (Refused r × ((E.is_duplicate r.error ≡ true) ⊎ (E.is_standing r.error ≡ true))))
  unfolding resent
  resent_of r h = elim (Bool-cases (E.is_transport r.error)) [
    | inl t ↦ absurd (ground (arith, h, t, unknown_stands r))
    | inr t ↦ (t, resent_direct r t (ground (arith, h, t)))
  ]

  -- A fate that counts as a standing stop is confirmed.
  abbrev pub IsHonest : OrderReceipt → Replies → StopFate → Type 0
  IsHonest first replies uncertain = seen_of replies.lookup ≡ none
  IsHonest first replies (answered r) = stands (standing E r) ≡ true → Confirmed first replies

  looked_up-IsHonest :
      (cid price : String) (first r : OrderReceipt) (seen : Option Bool) (replies : Replies)
      (g : Going)
      → Doubtful first
      → seen_of replies.lookup ≡ seen
      → IsHonest first replies (looked_up E cid price r seen replies g).0
  unfolding looked_up
  looked_up-IsHonest cid price first r none replies g d e = e
  looked_up-IsHonest cid price first r (some true) replies g d e = λ h. inr (d, inl e)
  looked_up-IsHonest cid price first r (some false) replies g d e =
      λ h. (let (c, x) = resent_of replies.again h in inr (d, inr (e, c, x)))

  doubted-unknown :
      (first : OrderReceipt) → outcome_is order_unknown (doubted E first) ≡ true → Doubtful first
  unfolding doubted
  doubted-unknown first h = elim (Bool-cases (E.is_transport first.error)) [
    | inl t ↦ inl t
    | inr t ↦ inr ((outcome_eq.beq_iff first.outcome order_unknown).0 (ground (arith, h, t)))
  ]

  unknown_true :
      (first : OrderReceipt)
      → outcome_is order_unknown (record first { outcome = order_unknown }) ≡ true
  unfolding OrderOutcome-discrete decide
  unknown_true first = refl

  doubted-Certain :
      (first : OrderReceipt)
      → outcome_is order_unknown (doubted E first) ≡ false
      → Certain first × (doubted E first ≡ first)
  unfolding doubted
  doubted-Certain first h = elim (Bool-cases (E.is_transport first.error)) [
    | inl t ↦ absurd (ground (arith, h, t, unknown_true first))
    | inr t ↦ (t, rw (t, doubted) refl)
  ]

  pub stop_fate-IsHonest :
      (cid price : String) (first : OrderReceipt) (replies : Replies) (g : Going)
      → IsHonest first replies (stop_fate E cid price first replies g).0
  unfolding stop_fate
  stop_fate-IsHonest cid price first replies g =
      elim (Bool-cases (outcome_is order_unknown (doubted E first))) [
        | inl u ↦
            rw (u, stop_fate)
              (looked_up-IsHonest cid price first (doubted E first) (seen_of replies.lookup) replies
                _ (doubted-unknown first u) refl)
        | inr u ↦
            let (t, e) = doubted-Certain first u in
            rw (u, stop_fate, e) (λ h. inl (t, standing_of first h))
      ]
