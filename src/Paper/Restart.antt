-- ===== src/Paper/Restart.antt =====
-- A restart: the state that is restored from the snapshot of a state.
use trade_gate.Prelude.{
  ℕ, zero, suc, ◌+◌, ◌-◌, ◌≤◌, ◌<◌, ◌≡◌, refl, sym, ap, ◌∙◌, true, none, some, String, List, [],
  ◌∷◌, arith, All, length, length-drop, drop, string_eq, nat_eq, any, ◌||◌, map, Bool, Option,
  Bool-cases, inl, inr,
}
use trade_gate.Dict
use trade_gate.Numbers.{Numbers}
use trade_gate.Paper.Types.{PaperOrder, Orders, Closed, PaperPosition, Paper, new_paper}
use trade_gate.Paper.Orders.{has_id, get_order}
use trade_gate.Paper.Snapshot.{
  PaperSnapshot, closed_keep, newest, number_from, snapshot, by_symbol, restore_from, restore,
}
use trade_gate.Paper.Fills.{mark}
use trade_gate.Paper.Account.{account, mark_or_entry, total_profit, open_profit, position_view}
use trade_gate.Paper.Steps.{PaperCall, paper_run}
use trade_gate.Paper.Invariant.{paper_run-IsValid, new_paper-IsValid}
use trade_gate.Paper.Lifecycle.{get_order-open, get_order-closed}
use trade_gate.Paper.Fate.{is_open_id}
use trade_gate.Paper.Valid.{IsOrder, AreOrders, IsUnder, IsValid}

drop-HasUniqueKeys : (n : ℕ) (c : Closed) → Dict.HasUniqueKeys c → Dict.HasUniqueKeys (drop n c)
drop-HasUniqueKeys zero c u = u
drop-HasUniqueKeys (suc n) [] u = u
drop-HasUniqueKeys (suc n) ((k, v) ∷ c) u = drop-HasUniqueKeys n c u.1

newest-HasUniqueKeys : (c : Closed) → Dict.HasUniqueKeys c → Dict.HasUniqueKeys (newest c)
unfolding newest
newest-HasUniqueKeys c u = ground (arith, drop-HasUniqueKeys (length c - closed_keep) c u)

newest-all : (c : Closed) → length c ≤ closed_keep → newest c ≡ c
unfolding newest
newest-all c h = ground (arith, h)

-- Objects with the numbers from `m` to `n` are distinct.
get-number_from : (m n : ℕ) (os : List PaperOrder) → m < n → Dict.get m (number_from n os) ≡ none
unfolding Dict.get
get-number_from m n [] h = refl
get-number_from m n (o ∷ os) h = ground (arith, nat_eq.beq_iff n m, get-number_from m (suc n) os)

number_from-AreOrders :
    (b n k : ℕ) (os : Orders)
    → n + length (Dict.values os) ≤ b
    → All (IsOrder k) os
    → AreOrders b (number_from n (Dict.values os))
number_from-AreOrders b n k [] h a = (tt, tt)
number_from-AreOrders b n k ((r, o) ∷ os) h a =
    let e : AreOrders b (number_from (suc n) (Dict.values os)) =
      number_from-AreOrders b (suc n) k os (omega (arith, h)) a.1 in
    (
      ((omega (arith, h), a.0.1), e.0),
      (get-number_from n (suc n) (Dict.values os) (omega arith), e.1),
    )

values-number_from : (n : ℕ) (os : List PaperOrder) → Dict.values (number_from n os) ≡ os
values-number_from n [] = refl
values-number_from n (o ∷ os) = ap (λ t. o ∷ t) (values-number_from (suc n) os)

-- A snapshot keeps at most `closed_keep` ends.
newest-bounded : (c : Closed) → length (newest c) ≤ closed_keep
unfolding newest
newest-bounded c = ground (arith, length-drop (length c - closed_keep) c)

module _ (N : Numbers) where
  open N use {Number, is_finite}

  by_symbol-values :
      (ps : List (String × PaperPosition N))
      → All (IsUnder N) ps
      → by_symbol N (Dict.values ps) ≡ ps
  by_symbol-values [] a = refl
  by_symbol-values ((symbol, p) ∷ ps) a = rw (a.0, by_symbol-values ps a.1) refl

  -- The restored state is the old one, but for the identity of the orders and the oldest ends.
  abbrev pub Agrees : Paper N → Paper N → Type 0
  Agrees t s =
      (t.wallet ≡ s.wallet)
      × (t.positions ≡ s.positions)
      × (Dict.values t.orders ≡ Dict.values s.orders)
      × (t.closed ≡ newest s.closed)
      × (t.marks ≡ s.marks)
      × (t.leverages ≡ s.leverages)

  -- The numbers of the wallet and the positions are ones that a JSON text keeps.
  abbrev pub ArePlain : (Number → Bool) → PaperSnapshot N → Type 0
  ArePlain is_plain snap =
      (is_plain snap.wallet ≡ true)
      × All (λ (p : PaperPosition N). (is_plain p.qty ≡ true) × (is_plain p.entry_price ≡ true))
          snap.positions

  -- The language's JSON: what parsing the text of a snapshot gives. A finite number that is not the
  -- negative zero is written so that it is read back; any other becomes `null` or zero, of which
  -- nothing is said.
  pub record Json : Type 0 where
    pub is_plain : Number → Bool
    pub plain_finite : (x : Number) → is_plain x ≡ true → is_finite x ≡ true
    pub parsed : PaperSnapshot N → Option (PaperSnapshot N)
    pub parsed_plain : (snap : PaperSnapshot N) → ArePlain is_plain snap → parsed snap ≡ some snap

  -- A new backend that starts with the text that was stored of `s`.
  abbrev pub restarted : Json → Number → Paper N → Paper N
  restarted json equity s = restore N (json.parsed (snapshot N s)) (new_paper N equity)

module _ (N : Numbers) (json : Json N) (equity : N.Number) where
  open N use {Number, is_finite}

  finite_wallet :
      (s : Paper N) → ArePlain N json.is_plain (snapshot N s) → is_finite s.wallet ≡ true
  unfolding snapshot
  finite_wallet s plain = json.plain_finite s.wallet plain.0

  restore_kept :
      (s : Paper N)
      → IsValid N s
      → is_finite s.wallet ≡ true
      → let t = restore N (some (snapshot N s)) (new_paper N equity) in Agrees N t s × IsValid N t
  unfolding restore restore_from snapshot
  restore_kept s v f =
      let (vp, vo, vc, vm, vl) = v in
      let p =
        ap (λ t. Dict.of_entries [] t) (by_symbol-values N s.positions vp.0)
        ∙ Dict.of_entries-HasUniqueKeys s.positions vp.1 in
      let u = newest-HasUniqueKeys s.closed vc in
      let c = Dict.of_entries-HasUniqueKeys (newest s.closed) u in
      let m = Dict.of_entries-HasUniqueKeys s.marks vm in
      let l = Dict.of_entries-HasUniqueKeys s.leverages vl in
      let os = Dict.values s.orders in
      (
        (rw f refl, p, values-number_from 0 os, c, m, l),
        (
          rw p vp,
          number_from-AreOrders (length os) 0 s.next_object s.orders (omega arith) vo.0,
          rw c u,
          rw m vm,
          rw l vl,
        ),
      )

  pub restore-snapshot :
      (s : Paper N)
      → IsValid N s
      → ArePlain N json.is_plain (snapshot N s)
      → Agrees N (restarted N json equity s) s × IsValid N (restarted N json equity s)
  restore-snapshot s v plain =
      rw (json.parsed_plain (snapshot N s) plain) (restore_kept s v (finite_wallet s plain))

is_open_id-values :
    (id : String) (os : Orders) → is_open_id id os ≡ any (has_id id) (Dict.values os)
is_open_id-values id [] = refl
is_open_id-values id ((r, o) ∷ os) = ap (λ b. has_id id o || b) (is_open_id-values id os)

module _ (N : Numbers) (t s : Paper N) (h : t.marks ≡ s.marks) where
  open N use {Number}

  mark_or_entry-marks : (p : PaperPosition N) → mark_or_entry N p t ≡ mark_or_entry N p s
  unfolding mark_or_entry mark
  mark_or_entry-marks p = rw h refl

  total_profit-marks :
      (upnl : Number) (ps : List (PaperPosition N))
      → total_profit N t upnl ps ≡ total_profit N s upnl ps
  unfolding total_profit
  total_profit-marks upnl [] = refl
  total_profit-marks upnl (p ∷ ps) =
      rw (mark_or_entry-marks p)
        (total_profit-marks (N.add upnl (open_profit N p (mark_or_entry N p s))) ps)

  views-marks :
      (ps : List (PaperPosition N)) → map (position_view N t) ps ≡ map (position_view N s) ps
  unfolding position_view
  views-marks [] = refl
  views-marks (p ∷ ps) = rw (mark_or_entry-marks p, views-marks ps) refl

module _ (N : Numbers) (t s : Paper N) (a : Agrees N t s) where
  account-Agrees : account N t ≡ account N s
  unfolding account
  account-Agrees =
      let zero_profit = N.of_text "0" in
      let upnl =
        ap (λ ps. total_profit N t zero_profit (Dict.values ps)) a.1
        ∙ total_profit-marks N t s a.4 zero_profit (Dict.values s.positions) in
      let views =
        ap (λ ps. map (position_view N t) (Dict.values ps)) a.1
        ∙ views-marks N t s a.4 (Dict.values s.positions) in
      cc (upnl, views, a.0, a.2)

  get_order-Agrees :
      (id : String) → length s.closed ≤ closed_keep → get_order N id t ≡ get_order N id s
  unfolding newest
  get_order-Agrees id b =
      let same =
        is_open_id-values id t.orders
        ∙ ap (any (has_id id)) a.2
        ∙ sym (is_open_id-values id s.orders) in
      elim (Bool-cases (is_open_id id s.orders)) [
        | inl e ↦ get_order-open N id t (same ∙ e) ∙ sym (get_order-open N id s e)
        | inr e ↦
            get_order-closed N id t (same ∙ e)
            ∙ ap (Dict.get id) (a.3 ∙ newest-all s.closed b)
            ∙ sym (get_order-closed N id s e)
      ]

module _ (N : Numbers) (json : Json N) (equity : N.Number) where
  open N use {Number, is_finite}

  -- A restart after any calls on a new backend is not seen, if the numbers of the wallet and the
  -- positions are finite and not the negative zero and no more orders than `closed_keep` ended: the account view and the answer about every order id are
  -- those of the backend before it.
  pub restart_unseen :
      (start : Number) (calls : List PaperCall) (id : String)
      → ArePlain N json.is_plain (snapshot N (paper_run N (new_paper N start) calls))
      → length (paper_run N (new_paper N start) calls).closed ≤ closed_keep
      → ((account N (restarted N json equity (paper_run N (new_paper N start) calls))
            ≡ account N (paper_run N (new_paper N start) calls))
          × (get_order N id (restarted N json equity (paper_run N (new_paper N start) calls))
              ≡ get_order N id (paper_run N (new_paper N start) calls)))
  restart_unseen start calls id f b =
      let s = paper_run N (new_paper N start) calls in
      let v = paper_run-IsValid N (new_paper N start) calls (new_paper-IsValid N start) in
      let a = (restore-snapshot N json equity s v f).0 in
      (
        account-Agrees N (restarted N json equity s) s a,
        get_order-Agrees N (restarted N json equity s) s a id b,
      )
