-- ===== src/Paper/Filled.antt =====
-- A tick leaves no resting entry that its price crosses.
use mathlib.Core.Bool.{false≢true}
use trade_gate.Prelude.{
  ℕ, ◌≡◌, refl, sym, subst, ◌∙◌, Bool, true, false, not, ◌&&◌, none, some, none≢some, String, [],
  ◌∷◌, arith, All, all, find, filter, string_eq, nat_eq, if◌then◌else◌, Option-cases, Bool-cases,
  inl, inr,
}
use trade_gate.Dict
use trade_gate.Numbers.{Numbers}
use trade_gate.Paper.Types.{PaperOrder, Orders, Paper, number_of}
use trade_gate.Paper.Fills.{fill, protects}
use trade_gate.Paper.Orders.{leverage_of, set_mark, crosses, settle}
use trade_gate.Paper.Tick.{
  is_resting, fill_resting, fill_entries, is_hit, trigger, check_protection, after_entries, tick,
}
use trade_gate.Paper.FillFate.{Shrinks, fill-FillFate, close_at-FillFate}
use trade_gate.Paper.Valid.{IsValid}
use trade_gate.Paper.Kept.{
  fill_resting-IsValid, fill_entries-IsValid, set_mark-IsValid, tick-IsValid,
}

module _ (N : Numbers) where
  open N use {Number, of_text}

  Shrinks-none :
      (s t : Paper N) (r : ℕ)
      → Shrinks N "" s t
      → Dict.get r s.orders ≡ none
      → Dict.get r t.orders ≡ none
  Shrinks-none s t r h g = elim (Option-cases (Dict.get r t.orders)) [
    | inl e ↦ e
    | inr (o, e) ↦ absurd (none≢some o (sym g ∙ h r o e))
  ]

  fill_resting-Shrinks :
      (symbol : String) (r : ℕ) (o : PaperOrder) (s : Paper N)
      → IsValid N s
      → Shrinks N "" s (fill_resting N symbol r o s)
  unfolding fill_resting settle
  fill_resting-Shrinks symbol r o s v j w g =
      let t =
        fill N symbol o.position_side (of_text o.qty) (number_of N o.price) (leverage_of N symbol s)
          s in
      let f =
        fill-FillFate N "" symbol o.position_side (of_text o.qty) (number_of N o.price)
          (leverage_of N symbol s) s in
      f.2 v.1.1 j w (Dict.get-remove-some j r w t.orders g)

  fill_resting-gone :
      (symbol : String) (r : ℕ) (o : PaperOrder) (s : Paper N)
      → Dict.get r (fill_resting N symbol r o s).orders ≡ none
  unfolding fill_resting settle
  fill_resting-gone symbol r o s =
      let t =
        fill N symbol o.position_side (of_text o.qty) (number_of N o.price) (leverage_of N symbol s)
          s in
      Dict.get-remove_self r t.orders

  fill_entries-Shrinks :
      (symbol : String) (m : Number) (resting : Orders) (s : Paper N)
      → IsValid N s
      → Shrinks N "" s (fill_entries N symbol m resting s).0
  unfolding fill_entries
  fill_entries-Shrinks symbol m [] s v = λ j w g. g
  fill_entries-Shrinks symbol m ((r, o) ∷ resting) s v =
      elim (Bool-cases (crosses N o.position_side m (number_of N o.price))) [
        | inl e ↦
            rw (e, fill_entries)
              (λ j w g. fill_resting-Shrinks symbol r o s v j w (
                fill_entries-Shrinks symbol m resting (fill_resting N symbol r o s)
                  (fill_resting-IsValid N symbol r o s v) j w g))
        | inr e ↦ rw (e, fill_entries) (fill_entries-Shrinks symbol m resting s v)
      ]

  -- The entries that the price crosses are gone after the loop.
  abbrev AreFilled : Number → Orders → Orders → Type 0
  AreFilled m resting os =
      All
        (λ e. crosses N e.1.position_side m (number_of N e.1.price) ≡ true → Dict.get e.0 os ≡ none)
        resting

  -- The loop's first round, where the price crosses the entry and where it does not.
  fill_entries-first :
      (symbol : String) (m : Number) (r : ℕ) (o : PaperOrder) (resting : Orders) (s : Paper N)
      (hit : Bool)
      → crosses N o.position_side m (number_of N o.price) ≡ hit
      → (fill_entries N symbol m ((r, o) ∷ resting) s).0
        ≡ (fill_entries N symbol m resting (if hit then fill_resting N symbol r o s else s)).0
  unfolding fill_entries
  fill_entries-first symbol m r o resting s hit e = rw e refl

  fill_entries-AreFilled :
      (symbol : String) (m : Number) (resting : Orders) (s : Paper N)
      → IsValid N s
      → AreFilled m resting (fill_entries N symbol m resting s).0.orders
  fill_entries-AreFilled symbol m [] s v = tt
  fill_entries-AreFilled symbol m ((r, o) ∷ resting) s v =
      let t = fill_resting N symbol r o s in
      let u = fill_resting-IsValid N symbol r o s v in
      let entries = (r, o) ∷ resting in
      elim (Bool-cases (crosses N o.position_side m (number_of N o.price))) [
        | inl e ↦
            subst (λ z. AreFilled m entries z.orders)
              (sym (fill_entries-first symbol m r o resting s true e))
              (
                λ h.
                    Shrinks-none t (fill_entries N symbol m resting t).0 r
                      (fill_entries-Shrinks symbol m resting t u) (fill_resting-gone symbol r o s),
                fill_entries-AreFilled symbol m resting t u,
              )
        | inr e ↦
            subst (λ z. AreFilled m entries z.orders)
              (sym (fill_entries-first symbol m r o resting s false e))
              (λ h. absurd (false≢true (sym e ∙ h)), fill_entries-AreFilled symbol m resting s v)
      ]

  after_entries-Shrinks :
      (symbol : String) (m : Number) (s : Paper N)
      → IsValid N s
      → Shrinks N "" s (after_entries N symbol m s).0
  unfolding after_entries check_protection trigger
  after_entries-Shrinks symbol m s v = elim (Option-cases (Dict.get symbol s.positions)) [
    | inl e ↦ rw (e, after_entries) (λ j w g. g)
    | inr (p, e) ↦
        elim (Option-cases (find (is_hit N p m) (filter (λ o. protects symbol o.1) s.orders))) [
          | inl f ↦ rw (e, after_entries, f, check_protection) (λ j w g. g)
          | inr (x, f) ↦
              rw (e, after_entries, f, check_protection, trigger)
                ((close_at-FillFate N "" symbol (number_of N x.1.stop_price) none s).2 v.1.1)
        ]
  ]

  -- A resting entry that the price crosses.
  abbrev is_due : String → Number → ℕ × PaperOrder → Bool
  is_due symbol m e = is_resting symbol e && crosses N e.1.position_side m (number_of N e.1.price)

  due-gone :
      (symbol : String) (m : Number) (os gone : Orders) (r : ℕ) (o : PaperOrder)
      → AreFilled m (filter (is_resting symbol) os) gone
      → Dict.get r os ≡ some o
      → is_due symbol m (r, o) ≡ true
      → Dict.get r gone ≡ none
  unfolding Dict.get
  due-gone symbol m [] gone r o a g d = ground arith
  due-gone symbol m ((j, w) ∷ os) gone r o a g d =
      ground (arith, a, due-gone symbol m os gone r o, nat_eq.beq_iff j r)

  -- What is left of the loop over all resting entries is not due.
  tick_due :
      (symbol : String) (m : Number) (s : Paper N)
      → IsValid N s
      → (r : ℕ) (o : PaperOrder)
      → Dict.get r (fill_entries N symbol m (filter (is_resting symbol) s.orders) s).0.orders
        ≡ some o
      → is_due symbol m (r, o) ≡ false
  tick_due symbol m s v r o g =
      let resting = filter (is_resting symbol) s.orders in
      let t = (fill_entries N symbol m resting s).0 in
      elim (Bool-cases (is_due symbol m (r, o))) [
        | inr e ↦ e
        | inl e ↦ absurd (
            none≢some o (
              sym (
                due-gone symbol m s.orders t.orders r o
                  (fill_entries-AreFilled symbol m resting s v)
                  (fill_entries-Shrinks symbol m resting s v r o g) e)
              ∙ g))
      ]

  none_due :
      (symbol : String) (m : Number) (os entries : Orders)
      → ((r : ℕ) (o : PaperOrder) → Dict.get r os ≡ some o → is_due symbol m (r, o) ≡ false)
      → All (λ e. Dict.get e.0 os ≡ some e.1) entries
      → all (λ e. not (is_due symbol m e)) entries ≡ true
  none_due symbol m os [] h a = refl
  none_due symbol m os ((r, o) ∷ entries) h a =
      ground (arith, h r o a.0, none_due symbol m os entries h a.1)

  -- After a tick of a well-formed state, no resting limit order of the symbol is left that the new
  -- price crosses.
  pub tick_fills :
      (symbol price : String) (s : Paper N)
      → IsValid N s
      → all
          (λ e. not (
            is_resting symbol e
            && crosses N e.1.position_side (of_text price) (number_of N e.1.price)))
          (tick N symbol price s).0.orders
        ≡ true
  unfolding tick set_mark
  tick_fills symbol price s v =
      let m = of_text price in
      let marked = set_mark N symbol price s in
      let resting = filter (is_resting symbol) s.orders in
      let vm = set_mark-IsValid N symbol price s v in
      let t = (fill_entries N symbol m resting marked).0 in
      let vt = fill_entries-IsValid N symbol m resting marked vm in
      let z = (after_entries N symbol m t).0 in
      let vz = tick-IsValid N symbol price s v in
      none_due symbol m z.orders z.orders
        (λ r o g. tick_due symbol m marked vm r o (after_entries-Shrinks symbol m t vt r o g))
        (Dict.All-get z.orders vz.1.1)
