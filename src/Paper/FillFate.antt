-- ===== src/Paper/FillFate.antt =====
-- What the fills and closes do to the orders: they cancel protective orders only.
use trade_gate.Prelude.{
  ℕ, ◌≡◌, Bool, false, Option, some, String, [], ◌∷◌, arith, ◌==◌, string_eq, nat_eq, Option-cases,
  Bool-cases, inl, inr,
}
use trade_gate.Dict
use trade_gate.Numbers.{Numbers}
use trade_gate.Threads.Types.{Direction, direction_eq}
use trade_gate.Paper.Types.{PaperOrder, Orders, PaperPosition, Paper, fee_rate}
use trade_gate.Paper.Fills.{
  retire, keep_others, close_part, part_of, close_at, fill_existing, fill, protects,
}
use trade_gate.Paper.Valid.{get-keep_others-none}
use trade_gate.Paper.Fate.{Fate, Fate-refl, retire-Fate}

get-keep_others :
    (r : ℕ) (o : PaperOrder) (p : PaperOrder → Bool) (os : Orders)
    → Dict.get r os ≡ some o
    → p o ≡ false
    → Dict.get r (keep_others p os) ≡ some o
unfolding keep_others Dict.get
get-keep_others r o p [] g h = g
get-keep_others r o p ((j, w) ∷ os) g h = ground (arith, get-keep_others r o p os)

get-keep_others-some :
    (r : ℕ) (o : PaperOrder) (p : PaperOrder → Bool) (os : Orders)
    → Dict.HasUniqueKeys os
    → Dict.get r (keep_others p os) ≡ some o
    → Dict.get r os ≡ some o
unfolding keep_others Dict.get
get-keep_others-some r o p [] u g = g
get-keep_others-some r o p ((j, w) ∷ os) u g =
    ground
      (arith, get-keep_others-some r o p os u.1, get-keep_others-none r p os, nat_eq.beq_iff j r)

module _ (N : Numbers) (id : String) where
  open N use {Number, of_text, le, sub, mul}

  abbrev pub FateOf : Paper N → Paper N → Type 0
  FateOf s t = Fate id s.orders s.closed t.orders t.closed

  abbrev pub KeepsEntries : Paper N → Paper N → Type 0
  KeepsEntries s t =
      (r : ℕ) (o : PaperOrder)
      → Dict.get r s.orders ≡ some o
      → o.reduce_only ≡ false
      → Dict.get r t.orders ≡ some o

  -- No order is new.
  abbrev pub Shrinks : Paper N → Paper N → Type 0
  Shrinks s t =
      (r : ℕ) (o : PaperOrder) → Dict.get r t.orders ≡ some o → Dict.get r s.orders ≡ some o

  -- The fate of the id, and that only orders which close are taken out.
  abbrev pub FillFate : Paper N → Paper N → Type 0
  FillFate s t = FateOf s t × KeepsEntries s t × (Dict.HasUniqueKeys s.orders → Shrinks s t)

module _ (N : Numbers) (id : String) where
  open N use {Number, of_text, le, sub, mul}

  same-FillFate : (s : Paper N) → FillFate N id s s
  same-FillFate s = (Fate-refl id s.orders s.closed, λ r o g h. g, λ u r o g. g)

  retire-FillFate : (symbol : String) (s : Paper N) → FillFate N id s (retire N (protects symbol) s)
  unfolding retire
  retire-FillFate symbol s = (
    retire-Fate id (protects symbol) s.orders s.closed,
    λ r o g h. get-keep_others r o (protects symbol) s.orders g (ground (arith, g, h)),
    λ u r o g. get-keep_others-some r o (protects symbol) s.orders u g,
  )

  close_part-FillFate :
      (symbol : String) (price : Number) (p : PaperPosition N) (q : Number) (s : Paper N)
      → FillFate N id s (close_part N symbol price p q s)
  unfolding close_part
  close_part-FillFate symbol price p q s = elim (Bool-cases (le (sub p.qty (of_text "1e-12")) q)) [
    | inl e ↦ rw (e, close_part) (retire-FillFate symbol s)
    | inr e ↦ rw (e, close_part) (same-FillFate s)
  ]

  pub close_at-FillFate :
      (symbol : String) (price : Number) (qty : Option Number) (s : Paper N)
      → FillFate N id s (close_at N symbol price qty s).0
  unfolding close_at
  close_at-FillFate symbol price qty s = elim (Option-cases (Dict.get symbol s.positions)) [
    | inl e ↦ rw (e, close_at) (same-FillFate s)
    | inr (p, e) ↦ rw (e, close_at) (close_part-FillFate symbol price p (part_of N p qty) s)
  ]

  fill_existing-FillFate :
      (symbol : String) (side : Direction) (qty price : Number) (p : PaperPosition N) (s : Paper N)
      → FillFate N id s (fill_existing N symbol side qty price p s)
  unfolding fill_existing
  fill_existing-FillFate symbol side qty price p s = elim (Bool-cases (p.side == side)) [
    | inl e ↦ rw (e, fill_existing) (same-FillFate s)
    | inr e ↦ rw (e, fill_existing) (close_at-FillFate symbol price (some qty) s)
  ]

  pub fill-FillFate :
      (symbol : String) (side : Direction) (qty price : Number) (leverage : ℕ) (s : Paper N)
      → FillFate N id s (fill N symbol side qty price leverage s)
  unfolding fill
  fill-FillFate symbol side qty price leverage s =
      elim (Option-cases (Dict.get symbol s.positions)) [
        | inl e ↦ rw (e, fill) (same-FillFate s)
        | inr (p, e) ↦
            rw (e, fill)
              (fill_existing-FillFate symbol side qty price p
                (record s { wallet = sub s.wallet (mul (mul price qty) (fee_rate N)) }))
      ]
