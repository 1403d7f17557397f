-- ===== src/Paper/Fate.antt =====
-- What the pieces of a call do to the orders that carry one id.
use trade_gate.Prelude.{
  ℕ, ◌≡◌, refl, Bool, true, false, Option, none, some, String, [], ◌∷◌, ◌++◌, arith, any,
  any-append, string_eq, nat_eq,
}
use trade_gate.Dict
use trade_gate.Threads.Facts.{OrderStatus, OrderStatusView, filled, order_canceled}
use trade_gate.Paper.Types.{PaperOrder, Orders, Closed, canceled_view}
use trade_gate.Paper.Fills.{cancel_where, keep_others}
use trade_gate.Paper.Orders.{has_id}

-- Some open order has the id.
abbrev pub is_open_id : String → Orders → Bool
is_open_id id = any (λ o. has_id id o.1)

-- The ends of orders that this backend gives.
abbrev pub is_final : OrderStatus → Bool
is_final filled = true
is_final order_canceled = true
is_final _ = false

abbrev pub has_ended : Option OrderStatusView → Bool
has_ended none = false
has_ended (some v) = is_final v.status

-- An id that is not open stays so with its end; one that is open and then no more has an end.
abbrev pub Fate : String → Orders → Closed → Orders → Closed → Type 0
Fate id os c os' c' =
    (is_open_id id os ≡ false → (is_open_id id os' ≡ false) × (Dict.get id c' ≡ Dict.get id c))
    × (is_open_id id os ≡ true → is_open_id id os' ≡ false → has_ended (Dict.get id c') ≡ true)

pub Fate-trans :
    (id : String) (a b c : Orders) (x y z : Closed)
    → Fate id a x b y
    → Fate id b y c z
    → Fate id a x c z
Fate-trans id a b c x y z p q = ground arith

pub Fate-refl : (id : String) (os : Orders) (c : Closed) → Fate id os c os c
Fate-refl id os c = ground arith

module _ (id : String) (p : PaperOrder → Bool) where
  keep_others-closed :
      (os : Orders) → is_open_id id os ≡ false → is_open_id id (keep_others p os) ≡ false
  unfolding keep_others
  keep_others-closed [] h = refl
  keep_others-closed ((r, o) ∷ os) h = ground (arith, keep_others-closed os)

  get-cancel_where :
      (os : Orders) (c : Closed)
      → is_open_id id os ≡ false
      → Dict.get id (cancel_where p os c) ≡ Dict.get id c
  unfolding cancel_where
  get-cancel_where [] c h = refl
  get-cancel_where ((r, o) ∷ os) c h = ground (
    arith,
    get-cancel_where os c,
    get-cancel_where os (Dict.set o.client_order_id canceled_view c),
    Dict.get-set_ne id o.client_order_id canceled_view c,
  )

  cancel_where-ended :
      (os : Orders) (c : Closed)
      → is_open_id id os ≡ true
      → is_open_id id (keep_others p os) ≡ false
      → has_ended (Dict.get id (cancel_where p os c)) ≡ true
  unfolding cancel_where keep_others
  cancel_where-ended [] c h k = ground arith
  cancel_where-ended ((r, o) ∷ os) c h k = ground (
    arith,
    cancel_where-ended os c,
    cancel_where-ended os (Dict.set o.client_order_id canceled_view c),
    get-cancel_where os (Dict.set o.client_order_id canceled_view c),
    Dict.get-set id o.client_order_id canceled_view c,
  )

  pub retire-Fate :
      (os : Orders) (c : Closed) → Fate id os c (keep_others p os) (cancel_where p os c)
  retire-Fate os c =
      (λ h. (keep_others-closed os h, get-cancel_where os c h), λ h k. cancel_where-ended os c h k)

-- An order that is found carries no id that is not open.
found-has_id :
    (id : String) (r : ℕ) (o : PaperOrder) (os : Orders)
    → Dict.get r os ≡ some o
    → is_open_id id os ≡ false
    → has_id id o ≡ false
unfolding Dict.get
found-has_id id r o [] g h = ground arith
found-has_id id r o ((j, w) ∷ os) g h = ground (arith, found-has_id id r o os)

remove-closed :
    (id : String) (r : ℕ) (os : Orders)
    → is_open_id id os ≡ false
    → is_open_id id (Dict.remove r os) ≡ false
unfolding Dict.remove
remove-closed id r [] h = refl
remove-closed id r ((j, w) ∷ os) h = ground (arith, remove-closed id r os)

-- Taking out an order with another id leaves the id open.
remove-other :
    (id : String) (r : ℕ) (o : PaperOrder) (os : Orders)
    → Dict.HasUniqueKeys os
    → Dict.get r os ≡ some o
    → has_id id o ≡ false
    → is_open_id id (Dict.remove r os) ≡ is_open_id id os
unfolding Dict.get Dict.remove
remove-other id r o [] u g h = refl
remove-other id r o ((j, w) ∷ os) u g h =
    ground (arith, remove-other id r o os u.1, Dict.remove-none r os, nat_eq.beq_iff j r)

pub settle-Fate :
    (id : String) (r : ℕ) (o : PaperOrder) (v : OrderStatusView) (os : Orders) (c : Closed)
    → Dict.HasUniqueKeys os
    → Dict.get r os ≡ some o
    → is_final v.status ≡ true
    → Fate id os c (Dict.remove r os) (Dict.set o.client_order_id v c)
settle-Fate id r o v os c u g f = ground (
  arith,
  found-has_id id r o os,
  remove-closed id r os,
  remove-other id r o os u g,
  Dict.get-set id o.client_order_id v c,
)

pub push-Fate :
    (id : String) (r : ℕ) (o : PaperOrder) (os : Orders) (c : Closed)
    → has_id id o ≡ false
    → Fate id os c (os ++ (r, o) ∷ []) c
push-Fate id r o os c h = ground (arith, any-append (λ o. has_id id o.1) os ((r, o) ∷ []))
