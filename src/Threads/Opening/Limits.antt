-- ===== src/Threads/Opening/Limits.antt =====
-- What the guard on opening keeps true of the threads.
use trade_gate.Prelude.{
  ℕ, suc, ◌+◌, ◌≤◌, ◌<◌, ◌≡◌, refl, ap, sym, ◌∙◌, ◌≢◌, ◌↔◌, inl, inr, Bool, true, false, ◌&&◌,
  String, List, [], ◌∷◌, ◌++◌, ltb, ◌==◌, string_eq, any, filter, length, arith, if◌then◌else◌,
  Bool-cases,
}
use trade_gate.Numbers.{Numbers}
use trade_gate.Graph.Types.{ThreadStatus, pending_entry, in_position}
use trade_gate.Threads.Types.{StrategyThread, NewThread, new_thread}
use trade_gate.Threads.Facts.{ThreadFacts, unchanged}
use trade_gate.Threads.Reconcile.{reconcile_thread}
use trade_gate.Threads.Reconcile.Invariants.{reconcile_thread-IsAccounted}
use trade_gate.Threads.Reconcile.Causes.{reconcile_thread-terminal}
use trade_gate.Threads.Opening.{
  Workflow, is_open, opening_blockers, ThreadStep, opens, reconciles, ThreadSteps, done,
  followed_by,
}

abbrev pub open_count : List StrategyThread → ℕ
open_count [] = 0
open_count (t ∷ ts) = if is_open t then suc (open_count ts) else open_count ts

-- How many open threads a symbol has.
abbrev pub open_on : String → List StrategyThread → ℕ
open_on s [] = 0
open_on s (t ∷ ts) = if is_open t && t.symbol == s then suc (open_on s ts) else open_on s ts

length-filter-is_open : (ts : List StrategyThread) → length (filter is_open ts) ≡ open_count ts
length-filter-is_open [] = refl
length-filter-is_open (t ∷ ts) = ground (arith, length-filter-is_open ts)

any_on :
    (s : String) (ts : List StrategyThread)
    → any (λ t. t.symbol == s) (filter is_open ts) ≡ ltb 0 (open_on s ts)
any_on s [] = refl
any_on s (t ∷ ts) = ground (arith, any_on s ts)

-- Nothing blocks an opening exactly when the symbol has no open thread, there are fewer open
-- threads than the limit, fewer openings today than the limit, and the day's loss has not hit its
-- stop.
pub opening_blockers-eq-nil :
    (ts : List StrategyThread) (w : Workflow) (symbol : String) (opens_today : ℕ) (loss : Bool)
    → (opening_blockers ts w symbol opens_today loss ≡ []) ↔ (
        (open_on symbol ts ≡ 0)
        × (open_count ts < w.max_open_threads)
        × (opens_today < w.max_opens_per_day)
        × (loss ≡ false))
unfolding opening_blockers
opening_blockers-eq-nil ts w symbol opens_today loss =
    ground (arith, any_on symbol ts, length-filter-is_open ts)

-- At most the limit's number of threads is open, and at most one on each symbol.
abbrev pub IsLimited : Workflow → List StrategyThread → Type 0
IsLimited w ts = (open_count ts ≤ w.max_open_threads) × ((s : String) → open_on s ts ≤ 1)

open_count-append :
    (ts us : List StrategyThread) → open_count (ts ++ us) ≡ open_count ts + open_count us
open_count-append [] us = omega arith
open_count-append (t ∷ ts) us = ground (arith, open_count-append ts us)

open_on-append :
    (s : String) (ts us : List StrategyThread) → open_on s (ts ++ us) ≡ open_on s ts + open_on s us
open_on-append s [] us = omega arith
open_on-append s (t ∷ ts) us = ground (arith, open_on-append s ts us)

opens-IsLimited :
    (w : Workflow) (ts : List StrategyThread) (input : NewThread) (opens_today : ℕ) (loss : Bool)
    → opening_blockers ts w input.symbol opens_today loss ≡ []
    → IsLimited w ts
    → IsLimited w (new_thread input ∷ ts)
unfolding is_open new_thread
opens-IsLimited w ts input opens_today loss h (l, k) =
    let (free, room, day, calm) =
      (opening_blockers-eq-nil ts w input.symbol opens_today loss).0 h in
    (omega arith, λ s. ground (arith, free, k s, string_eq.beq_iff input.symbol s))

status_open :
    (s : ThreadStatus)
    → (elim s [ pending_entry ↦ true | in_position ↦ true | _ ↦ false ]) ≡ false
    → (s ≢ pending_entry) × (s ≢ in_position)
status_open s h = ground arith

-- Fewer threads are open with the second in place of the first.
abbrev Closes : StrategyThread → StrategyThread → Type 0
Closes t u = (u.symbol ≡ t.symbol) × (is_open u ≡ true → is_open t ≡ true)

Closes-count :
    (t u : StrategyThread) (ts : List StrategyThread)
    → Closes t u
    → open_count (u ∷ ts) ≤ open_count (t ∷ ts)
Closes-count t u ts (h, k) = ground arith

Closes-on :
    (s : String) (t u : StrategyThread) (ts : List StrategyThread)
    → Closes t u
    → open_on s (u ∷ ts) ≤ open_on s (t ∷ ts)
Closes-on s t u ts (h, k) = ground (arith, ap (λ x. x == s) h)

module _ (N : Numbers) (t : StrategyThread) (f : ThreadFacts) where
  closed_stays : is_open t ≡ false → (reconcile_thread N t f).next ≡ t
  unfolding is_open unchanged
  closed_stays h =
      let (p, q) = status_open t.status h in ap (λ r. r.next) (reconcile_thread-terminal N t f p q)

  -- A pass never opens a thread that was not open, and keeps its symbol.
  reconcile_thread-Closes : Closes t (reconcile_thread N t f).next
  reconcile_thread-Closes = (
    (reconcile_thread-IsAccounted N t f).1.symbol,
    elim (Bool-cases (is_open t)) [
      | inl e ↦ λ _. e
      | inr e ↦ λ o. sym (ap is_open (closed_stays e)) ∙ o
    ],
  )

  reconciles-IsLimited :
      (w : Workflow) (before after : List StrategyThread)
      → IsLimited w (before ++ t ∷ after)
      → IsLimited w (before ++ (reconcile_thread N t f).next ∷ after)
  reconciles-IsLimited w before after (l, k) =
      let u = (reconcile_thread N t f).next in
      let c = reconcile_thread-Closes in
      (
        omega (
          arith,
          open_count-append before (t ∷ after),
          open_count-append before (u ∷ after),
          Closes-count t u after c,
        ),
        λ s. omega (
          arith,
          k s,
          open_on-append s before (t ∷ after),
          open_on-append s before (u ∷ after),
          Closes-on s t u after c,
        ),
      )

module _ (N : Numbers) (w : Workflow) where
  step-IsLimited :
      {ts us : List StrategyThread} → ThreadStep N w ts us → IsLimited w ts → IsLimited w us
  step-IsLimited (opens {ts} input opens_today loss h) l =
      opens-IsLimited w ts input opens_today loss h l
  step-IsLimited (reconciles before t after f) l = reconciles-IsLimited N t f w before after l

  -- Where no more threads are open than the limit allows and no symbol has two open ones, this stays
  -- so however threads are opened past the blockers and reconciled.
  pub steps-IsLimited :
      {ts us : List StrategyThread} → ThreadSteps N w ts us → IsLimited w ts → IsLimited w us
  steps-IsLimited done l = l
  steps-IsLimited (followed_by before last) l = step-IsLimited last (steps-IsLimited before l)
