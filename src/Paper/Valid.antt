-- ===== src/Paper/Valid.antt =====
-- The well-formed states of the backend: maps without a key twice, positions under their own
-- symbol, orders that are distinct objects, and no limit order that only reduces.
use trade_gate.Prelude.{
  ℕ, suc, ◌<◌, ◌≡◌, refl, sym, Bool, false, ◌&&◌, none, some, String, List, [], ◌∷◌, ◌++◌, arith,
  All, string_eq, nat_eq,
}
use trade_gate.Dict
use trade_gate.Numbers.{Numbers}
use trade_gate.Paper.Types.{
  PaperOrder, is_limit_order, Orders, Closed, canceled_view, PaperPosition, Paper,
}
use trade_gate.Paper.Fills.{cancel_where, keep_others}

-- An order object that is older than `n`, and no limit order that only reduces.
abbrev pub IsOrder : ℕ → ℕ × PaperOrder → Type 0
IsOrder n (r, o) = (r < n) × ((is_limit_order o.type && o.reduce_only) ≡ false)

abbrev pub AreOrders : ℕ → Orders → Type 0
AreOrders n os = All (IsOrder n) os × Dict.HasUniqueKeys os

pub get-keep_others-none :
    (r : ℕ) (p : PaperOrder → Bool) (os : Orders)
    → Dict.get r os ≡ none
    → Dict.get r (keep_others p os) ≡ none
unfolding keep_others Dict.get
get-keep_others-none r p [] h = refl
get-keep_others-none r p ((j, w) ∷ os) h = ground (arith, get-keep_others-none r p os)

module _ (n : ℕ) where
  pub keep_others-AreOrders :
      (p : PaperOrder → Bool) (os : Orders) → AreOrders n os → AreOrders n (keep_others p os)
  unfolding keep_others
  keep_others-AreOrders p [] h = (tt, tt)
  keep_others-AreOrders p ((j, w) ∷ os) h =
      ground (arith, keep_others-AreOrders p os (h.0.1, h.1.1), get-keep_others-none j p os)

  All-remove : (r : ℕ) (os : Orders) → All (IsOrder n) os → All (IsOrder n) (Dict.remove r os)
  unfolding Dict.remove
  All-remove r [] h = tt
  All-remove r ((j, w) ∷ os) h = ground (arith, All-remove r os h.1)

  pub remove-AreOrders : (r : ℕ) (os : Orders) → AreOrders n os → AreOrders n (Dict.remove r os)
  remove-AreOrders r os h = (All-remove r os h.0, Dict.remove-HasUniqueKeys r os h.1)

  -- A new object is not among the older ones.
  get-new : (os : Orders) → All (IsOrder n) os → Dict.get n os ≡ none
  unfolding Dict.get
  get-new [] h = refl
  get-new ((j, w) ∷ os) h = ground (arith, get-new os h.1, nat_eq.beq_iff j n)

All-push :
    (n : ℕ) (o : PaperOrder) (os : Orders)
    → (is_limit_order o.type && o.reduce_only) ≡ false
    → All (IsOrder n) os
    → All (IsOrder (suc n)) (os ++ (n, o) ∷ [])
All-push n o [] h a = ((omega arith, h), tt)
All-push n o ((j, w) ∷ os) h a = ((omega (arith, a.0.0), a.0.1), All-push n o os h a.1)

pub push-AreOrders :
    (n : ℕ) (o : PaperOrder) (os : Orders)
    → (is_limit_order o.type && o.reduce_only) ≡ false
    → AreOrders n os
    → AreOrders (suc n) (os ++ (n, o) ∷ [])
push-AreOrders n o os h a =
    let e = Dict.set-new n o os (get-new n os a.0) in
    (All-push n o os h a.0, rw (sym e) (Dict.set-HasUniqueKeys n o os a.1))

pub cancel_where-HasUniqueKeys :
    (p : PaperOrder → Bool) (os : Orders) (c : Closed)
    → Dict.HasUniqueKeys c
    → Dict.HasUniqueKeys (cancel_where p os c)
unfolding cancel_where
cancel_where-HasUniqueKeys p [] c u = u
cancel_where-HasUniqueKeys p ((r, o) ∷ os) c u = ground (
  arith,
  cancel_where-HasUniqueKeys p os c,
  cancel_where-HasUniqueKeys p os (Dict.set o.client_order_id canceled_view c),
  Dict.set-HasUniqueKeys o.client_order_id canceled_view c u,
)

module _ (N : Numbers) where
  abbrev pub IsUnder : String × PaperPosition N → Type 0
  IsUnder (symbol, p) = p.symbol ≡ symbol

  abbrev pub ArePositions : List (String × PaperPosition N) → Type 0
  ArePositions ps = All IsUnder ps × Dict.HasUniqueKeys ps

  -- The states that the calls keep.
  abbrev pub IsValid : Paper N → Type 0
  IsValid s =
      ArePositions s.positions
      × AreOrders s.next_object s.orders
      × Dict.HasUniqueKeys s.closed
      × Dict.HasUniqueKeys s.marks
      × Dict.HasUniqueKeys s.leverages

module _ (N : Numbers) where
  pub get-IsUnder :
      (symbol : String) (p : PaperPosition N) (ps : List (String × PaperPosition N))
      → All (IsUnder N) ps
      → Dict.get symbol ps ≡ some p
      → p.symbol ≡ symbol
  unfolding Dict.get
  get-IsUnder symbol p [] a h = ground arith
  get-IsUnder symbol p ((j, q) ∷ ps) a h =
      ground (arith, get-IsUnder symbol p ps a.1, string_eq.beq_iff j symbol)

  All-set :
      (symbol : String) (p : PaperPosition N) (ps : List (String × PaperPosition N))
      → p.symbol ≡ symbol
      → All (IsUnder N) ps
      → All (IsUnder N) (Dict.set symbol p ps)
  unfolding Dict.set
  All-set symbol p [] e a = (e, tt)
  All-set symbol p ((j, q) ∷ ps) e a =
      ground (arith, All-set symbol p ps e a.1, string_eq.beq_iff j symbol)

  pub set-ArePositions :
      (symbol : String) (p : PaperPosition N) (ps : List (String × PaperPosition N))
      → p.symbol ≡ symbol
      → ArePositions N ps
      → ArePositions N (Dict.set symbol p ps)
  set-ArePositions symbol p ps e a =
      (All-set symbol p ps e a.0, Dict.set-HasUniqueKeys symbol p ps a.1)

  All-drop :
      (symbol : String) (ps : List (String × PaperPosition N))
      → All (IsUnder N) ps
      → All (IsUnder N) (Dict.remove symbol ps)
  unfolding Dict.remove
  All-drop symbol [] a = tt
  All-drop symbol ((j, q) ∷ ps) a = ground (arith, All-drop symbol ps a.1)

  pub remove-ArePositions :
      (symbol : String) (ps : List (String × PaperPosition N))
      → ArePositions N ps
      → ArePositions N (Dict.remove symbol ps)
  remove-ArePositions symbol ps a =
      (All-drop symbol ps a.0, Dict.remove-HasUniqueKeys symbol ps a.1)
