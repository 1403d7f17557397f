-- ===== src/Runtime/Entry/Answers.antt =====
-- What the exchange says of an entry, and how often one is sent.
use trade_gate.Prelude.{
  ◌≢◌, ℕ, suc, ◌+◌, ◌≡◌, refl, ◌⊎◌, Bool, true, false, ◌∙◌, sym, ap, Option, none, some, String,
  List, [], ◌∷◌, ◌++◌, arith, string_eq, inl, inr, if◌then◌else◌, contains, beq_refl, none≢some,
}
use trade_gate.Graph.Types.{canceled, status_eq}
use trade_gate.Threads.Types.{StrategyThread}
use trade_gate.Threads.Facts.{
  OrderStatusView, OrderStatus, filled as status_filled, is_dead, new, partially_filled,
  order_canceled, expired, rejected as status_rejected, other_status,
}
use trade_gate.Runtime.World.{
  World, OrderReceipt, OrderOutcome, order_filled, order_submitted, order_failed, order_unknown,
}
use trade_gate.Runtime.Preflight.{
  Call, entry_call, protected_entry_call, Made, OrderAnswer, order, order_threw, EntryReplies,
}
use trade_gate.Runtime.Sending.{tp_choice, status_outcome, answered_outcome}

-- A property of both branches of a test.
pub either {ℓ κ} :
    {A : Type ℓ} (P : A → Type κ) (b : Bool) {x y : A} → P x → P y → P (if b then x else y)
either P true p q = p
either P false p q = q

-- A property of both branches of a test that fails in the second one.
pub either_known {ℓ κ} :
    {A : Type ℓ} (P : A → Type κ) (b : Bool) {x y : A}
    → P x
    → (b ≡ false → P y)
    → P (if b then x else y)
either_known P true p q = p
either_known P false p q = q refl

-- A property of both ends of `tp_choice`.
pub either_choice {ℓ κ} :
    {A : Type ℓ} (P : A → Type κ) (price : Option String) {x y : A}
    → P x
    → P y
    → P (tp_choice price x y)
either_choice P none p q = q
either_choice P (some price) p q = p

pub first_leg : (k : String) (ks : List String) → contains k (k ∷ ks) ≡ true
first_leg k ks = ground (arith, beq_refl k)

-- How often an entry was sent.
abbrev pub is_entry : Call → Bool
is_entry (entry_call q) = true
is_entry (protected_entry_call q price cid tp) = true
is_entry _ = false

abbrev pub entries : List Made → ℕ
entries [] = 0
entries (m ∷ ms) = if is_entry m.call then suc (entries ms) else entries ms

pub entries-append : (ms ns : List Made) → entries (ms ++ ns) ≡ entries ms + entries ns
entries-append [] ns = omega arith
entries-append (m ∷ ms) ns = ground (arith, entries-append ms ns)

-- What the answer to a question for the order says of it.
abbrev pub IsAnswer : OrderOutcome → OrderAnswer → Type 0
IsAnswer order_unknown a = (a ≡ order_threw) ⊎ (a ≡ order none)
IsAnswer order_filled a = (o : OrderStatusView) × (a ≡ order (some o)) × (o.status ≡ status_filled)
IsAnswer order_failed a = (o : OrderStatusView) × (a ≡ order (some o)) × (is_dead o.status ≡ true)
IsAnswer order_submitted a =
    (o : OrderStatusView) × (a ≡ order (some o))
    × (is_dead o.status ≡ false)
    × (o.status ≢ status_filled)

pub found-IsAnswer :
    (o : OrderStatusView) (s : OrderStatus)
    → o.status ≡ s
    → IsAnswer (status_outcome s) (order (some o))
unfolding status_outcome
found-IsAnswer o status_filled e = (o, refl, e)
found-IsAnswer o order_canceled e = (o, refl, ap is_dead e)
found-IsAnswer o expired e = (o, refl, ap is_dead e)
found-IsAnswer o status_rejected e = (o, refl, ap is_dead e)
found-IsAnswer o new e = (o, refl, ap is_dead e, λ f. ground (arith, sym e ∙ f))
found-IsAnswer o partially_filled e = (o, refl, ap is_dead e, λ f. ground (arith, sym e ∙ f))
found-IsAnswer o (other_status t) e = (o, refl, ap is_dead e, λ f. ground (arith, sym e ∙ f))

pub answered-IsAnswer : (a : OrderAnswer) → IsAnswer (answered_outcome a) a
unfolding answered_outcome
answered-IsAnswer order_threw = inl refl
answered-IsAnswer (order none) = inr refl
answered-IsAnswer (order (some o)) = found-IsAnswer o o.status refl

-- What the exchange said of the entry: at once, or when it was asked for.
abbrev pub IsSaid : OrderOutcome → OrderReceipt → EntryReplies → Type 0
IsSaid outcome receipt replies =
    (receipt.outcome ≡ outcome)
    ⊎ ((receipt.outcome ≡ order_unknown) × IsAnswer outcome replies.order_answer)

abbrev pub IsCanceled : StrategyThread → Type 0
IsCanceled s = s.status ≡ canceled

-- The state in which the entry was sent.
abbrev pub entry_seen : List Made → Option World
entry_seen [] = none
entry_seen (m ∷ ms) = if is_entry m.call then some m.seen else entry_seen ms

pub entry_seen-append : (ms ns : List Made) → entries ms ≡ 0 → entry_seen (ms ++ ns) ≡ entry_seen ns
entry_seen-append [] ns h = refl
entry_seen-append (m ∷ ms) ns h = ground (arith, h, entry_seen-append ms ns)

pub entry_seen-kept :
    (w : World) (ms ns : List Made) → entry_seen ms ≡ some w → entry_seen (ms ++ ns) ≡ some w
entry_seen-kept w [] ns h = absurd (none≢some w h)
entry_seen-kept w (m ∷ ms) ns h = ground (arith, h, entry_seen-kept w ms ns)
