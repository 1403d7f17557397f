-- ===== src/Paper/TickFate.antt =====
-- What a tick does to the orders that carry one id.
use trade_gate.Prelude.{
  ℕ, ◌≡◌, refl, ◌∙◌, beq_comm, Bool, true, false, none, some, String, [], ◌∷◌, arith, All, find,
  filter, ◌==◌, string_eq, nat_eq, Option-cases, Bool-cases, inl, inr,
}
use trade_gate.Dict
use trade_gate.Numbers.{Numbers}
use trade_gate.Threads.Facts.{OrderStatusView}
use trade_gate.Paper.Types.{PaperOrder, Orders, Closed, PaperPosition, Paper, number_of}
use trade_gate.Paper.Fills.{close_at, fill, protects}
use trade_gate.Paper.Orders.{leverage_of, set_mark, crosses, settle, has_id}
use trade_gate.Paper.Tick.{
  filled_view, is_resting, fill_resting, fill_entries, is_hit, trigger, check_protection,
  after_entries, tick,
}
use trade_gate.Paper.Fate.{is_open_id, is_final, Fate, Fate-trans, Fate-refl, settle-Fate}
use trade_gate.Paper.FillFate.{FateOf, fill-FillFate, close_at-FillFate}
use trade_gate.Paper.Valid.{IsOrder, IsValid}
use trade_gate.Paper.Kept.{fill-IsValid, fill_resting-IsValid, set_mark-IsValid}

-- An order that opens and is still among `os`.
abbrev IsEntry : Orders → ℕ × PaperOrder → Type 0
IsEntry os (r, o) = (Dict.get r os ≡ some o) × (o.reduce_only ≡ false)

resting-IsEntry :
    (symbol : String) (n : ℕ) (os entries : Orders)
    → All (IsOrder n) entries
    → All (λ e. Dict.get e.0 os ≡ some e.1) entries
    → All (IsEntry os) (filter (is_resting symbol) entries)
resting-IsEntry symbol n os [] a b = tt
resting-IsEntry symbol n os ((r, o) ∷ entries) a b =
    ground (arith, resting-IsEntry symbol n os entries a.1 b.1)

filter-none :
    (q : ℕ × PaperOrder → Bool) (r : ℕ) (os : Orders)
    → Dict.get r os ≡ none
    → Dict.get r (filter q os) ≡ none
unfolding Dict.get
filter-none q r [] h = refl
filter-none q r ((j, w) ∷ os) h = ground (arith, filter-none q r os)

filter-HasUniqueKeys :
    (q : ℕ × PaperOrder → Bool) (os : Orders)
    → Dict.HasUniqueKeys os
    → Dict.HasUniqueKeys (filter q os)
filter-HasUniqueKeys q [] u = tt
filter-HasUniqueKeys q ((j, w) ∷ os) u =
    ground (arith, filter-HasUniqueKeys q os u.1, filter-none q j os u.0)

-- An order that a search finds carries no id that is not open.
found-closed :
    (id : String) (q f : ℕ × PaperOrder → Bool) (os : Orders) (x : ℕ × PaperOrder)
    → find q (filter f os) ≡ some x
    → is_open_id id os ≡ false
    → has_id id x.1 ≡ false
found-closed id q f [] x g h = ground arith
found-closed id q f ((r, o) ∷ os) x g h = ground (arith, found-closed id q f os x)

-- The end of an order that was open is noted.
noted-Fate :
    (id : String) (o : PaperOrder) (v : OrderStatusView) (a b : Orders) (x y : Closed)
    → (is_open_id id a ≡ false → has_id id o ≡ false)
    → is_final v.status ≡ true
    → Fate id a x b y
    → Fate id a x b (Dict.set o.client_order_id v y)
noted-Fate id o v a b x y h f p = ground (arith, Dict.get-set id o.client_order_id v y)

module _ (N : Numbers) (id : String) where
  open N use {Number, of_text, le, sub, mul, to_text}

  fill_resting-FateOf :
      (symbol : String) (r : ℕ) (o : PaperOrder) (s : Paper N)
      → IsValid N s
      → IsEntry s.orders (r, o)
      → FateOf N id s (fill_resting N symbol r o s)
  unfolding fill_resting settle
  fill_resting-FateOf symbol r o s v k =
      let price = number_of N o.price in
      let t = fill N symbol o.position_side (of_text o.qty) price (leverage_of N symbol s) s in
      let w =
        fill-IsValid N symbol o.position_side (of_text o.qty) price (leverage_of N symbol s) s v in
      let (f, e, d) =
        fill-FillFate N id symbol o.position_side (of_text o.qty) price (leverage_of N symbol s)
          s in
      Fate-trans id s.orders t.orders _ s.closed t.closed _ f (
        settle-Fate id r o (filled_view (to_text price) o.qty) t.orders t.closed w.1.1
          (e r o k.0 k.1) refl)

  fill_resting-keeps :
      (symbol : String) (r : ℕ) (o : PaperOrder) (s : Paper N) (j : ℕ) (w : PaperOrder)
      → (r == j) ≡ false
      → IsEntry s.orders (j, w)
      → IsEntry (fill_resting N symbol r o s).orders (j, w)
  unfolding fill_resting settle
  fill_resting-keeps symbol r o s j w h k =
      let t =
        fill N symbol o.position_side (of_text o.qty) (number_of N o.price) (leverage_of N symbol s)
          s in
      let e =
        fill-FillFate N id symbol o.position_side (of_text o.qty) (number_of N o.price)
          (leverage_of N symbol s) s in
      (Dict.get-remove_ne j r t.orders h ∙ e.1 j w k.0 k.1, k.1)

  fill_resting-All :
      (symbol : String) (r : ℕ) (o : PaperOrder) (s : Paper N) (rest : Orders)
      → Dict.get r rest ≡ none
      → All (IsEntry s.orders) rest
      → All (IsEntry (fill_resting N symbol r o s).orders) rest
  unfolding Dict.get
  fill_resting-All symbol r o s [] h a = tt
  fill_resting-All symbol r o s ((j, w) ∷ rest) h a =
      ground (
        arith,
        fill_resting-All symbol r o s rest,
        fill_resting-keeps symbol r o s j w,
        beq_comm r j,
      )

  fill_entries-FateOf :
      (symbol : String) (m : Number) (resting : Orders) (s : Paper N)
      → IsValid N s
      → All (IsEntry s.orders) resting
      → Dict.HasUniqueKeys resting
      → FateOf N id s (fill_entries N symbol m resting s).0
  unfolding fill_entries
  fill_entries-FateOf symbol m [] s v a u = Fate-refl id s.orders s.closed
  fill_entries-FateOf symbol m ((r, o) ∷ resting) s v a u =
      let t = fill_resting N symbol r o s in
      let z = (fill_entries N symbol m resting t).0 in
      elim (Bool-cases (crosses N o.position_side m (number_of N o.price))) [
        | inl e ↦
            rw (e, fill_entries)
              (Fate-trans id s.orders t.orders z.orders s.closed t.closed z.closed
                (fill_resting-FateOf symbol r o s v a.0)
                (fill_entries-FateOf symbol m resting t (fill_resting-IsValid N symbol r o s v)
                  (fill_resting-All symbol r o s resting u.0 a.1) u.1))
        | inr e ↦ rw (e, fill_entries) (fill_entries-FateOf symbol m resting s v a.1 u.1)
      ]

  trigger-FateOf :
      (symbol : String) (p : PaperPosition N) (o : PaperOrder) (s : Paper N)
      → (is_open_id id s.orders ≡ false → has_id id o ≡ false)
      → FateOf N id s (trigger N symbol p o s).0
  unfolding trigger
  trigger-FateOf symbol p o s h =
      let u = (close_at N symbol (number_of N o.stop_price) none s).0 in
      noted-Fate id o _ s.orders u.orders s.closed u.closed h refl
        (close_at-FillFate N id symbol (number_of N o.stop_price) none s).0

  check_protection-FateOf :
      (symbol : String) (m : Number) (p : PaperPosition N) (s : Paper N)
      → FateOf N id s (check_protection N symbol m p s).0
  unfolding check_protection
  check_protection-FateOf symbol m p s =
      elim (Option-cases (find (is_hit N p m) (filter (λ o. protects symbol o.1) s.orders))) [
        | inl e ↦ rw (e, check_protection) (Fate-refl id s.orders s.closed)
        | inr (found, e) ↦
            rw (e, check_protection)
              (trigger-FateOf symbol p found.1 s
                (found-closed id (is_hit N p m) (λ o. protects symbol o.1) s.orders found e))
      ]

  after_entries-FateOf :
      (symbol : String) (m : Number) (s : Paper N) → FateOf N id s (after_entries N symbol m s).0
  unfolding after_entries
  after_entries-FateOf symbol m s = elim (Option-cases (Dict.get symbol s.positions)) [
    | inl e ↦ rw (e, after_entries) (Fate-refl id s.orders s.closed)
    | inr (p, e) ↦ rw (e, after_entries) (check_protection-FateOf symbol m p s)
  ]

  pub tick-FateOf :
      (symbol price : String) (s : Paper N) → IsValid N s → FateOf N id s (tick N symbol price s).0
  unfolding tick set_mark
  tick-FateOf symbol price s v =
      let m = of_text price in
      let marked = set_mark N symbol price s in
      let resting = filter (is_resting symbol) s.orders in
      let t = (fill_entries N symbol m resting marked).0 in
      let z = (after_entries N symbol m t).0 in
      Fate-trans id s.orders t.orders z.orders s.closed t.closed z.closed
        (fill_entries-FateOf symbol m resting marked (set_mark-IsValid N symbol price s v)
          (resting-IsEntry symbol s.next_object s.orders s.orders v.1.0
            (Dict.All-get s.orders v.1.1))
          (filter-HasUniqueKeys (is_resting symbol) s.orders v.1.1))
        (after_entries-FateOf symbol m t)
