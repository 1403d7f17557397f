-- ===== src/Runtime/Halt/Incomplete.antt =====
-- Which threads a halt ends.
use trade_gate.Prelude.{
  All, ◌≡◌, refl, ◌⊎◌, Bool, true, false, ◌∙◌, sym, ap, none, some, String, List, [], ◌∷◌, arith,
  any, contains, filter, ◌==◌, string_eq, Option-cases, Bool-cases, inl, inr, none≢some, ◌&&◌,
}
use mathlib.Core.Bool.{false≢true}
use trade_gate.Dict
use trade_gate.Graph.Types.{status_eq}
use trade_gate.Threads.Types.{StrategyThread, Backend, halt_incomplete}
use trade_gate.Threads.Opening.{is_open}
use trade_gate.Runtime.World.{World, save_thread, given_text}
use trade_gate.Runtime.Halt.{
  HaltReplies, HaltTimes, open_threads, halt_symbols, is_failed, flatten_all, failed_symbols,
  halt_thread, halt_threads, Rows, set_halted, halt,
}
use trade_gate.Runtime.Preflight.{is_awake}

-- Each thread stands under its id, and no id twice.
abbrev pub AreKeyed : List (String × StrategyThread) → Type 0
AreKeyed [] = Unit
AreKeyed ((k, t) ∷ m) = (t.id ≡ k) × (Dict.get k m ≡ none) × AreKeyed m

module _ (c : HaltTimes) (failed : List String) where
  halt_thread-id : (t : StrategyThread) → (halt_thread c failed t).id ≡ t.id
  unfolding halt_thread
  halt_thread-id t = elim (Bool-cases (contains t.symbol failed)) [
    | inl b ↦ rw (b, halt_thread) refl
    | inr b ↦ rw (b, halt_thread) refl
  ]

  other_threads :
      (k : String) (ts : List StrategyThread) (w : World)
      → any (λ t. t.id == k) ts ≡ false
      → Dict.get k (halt_threads c failed ts w).threads ≡ Dict.get k w.threads
  unfolding halt_threads save_thread
  other_threads k [] w h = refl
  other_threads k (t ∷ ts) w h =
      other_threads k ts (save_thread (halt_thread c failed t) w) (ground (arith, h))
      ∙ Dict.get-set_ne k (halt_thread c failed t).id (halt_thread c failed t) w.threads
          (ap (λ i. i == k) (halt_thread-id t) ∙ ground (arith, h))

  own_thread :
      (k : String) (t : StrategyThread) (ts : List StrategyThread) (w : World)
      → All (λ (s : StrategyThread). (s.id == k) ≡ true → s ≡ t) ts
      → any (λ (s : StrategyThread). s.id == k) ts ≡ true
      → Dict.get k (halt_threads c failed ts w).threads ≡ some (halt_thread c failed t)
  unfolding halt_threads save_thread
  own_thread k t [] w a h = absurd (ground (arith, h))
  own_thread k t (s ∷ ts) w a h = elim (Bool-cases (any (λ (x : StrategyThread). x.id == k) ts)) [
    | inl b ↦ own_thread k t ts (save_thread (halt_thread c failed s) w) a.1 b
    | inr b ↦
        let is_own : (s.id == k) ≡ true = ground (arith, h, b) in
        let is_t : s ≡ t = a.0 is_own in
        other_threads k ts (save_thread (halt_thread c failed s) w) b
        ∙ Dict.get-set_eq k (halt_thread c failed s).id (halt_thread c failed s) w.threads
            (ap (λ i. i == k) (halt_thread-id s) ∙ is_own)
        ∙ ap (λ x. some (halt_thread c failed x)) is_t
  ]

module _ (p : StrategyThread → Bool) where
  no_own_thread :
      (k : String) (t : StrategyThread) (m : List (String × StrategyThread))
      → AreKeyed m
      → Dict.get k m ≡ none
      → All (λ (s : StrategyThread). (s.id == k) ≡ true → s ≡ t) (filter p (Dict.values m))
  unfolding Dict.get
  no_own_thread k t [] u h = tt
  no_own_thread k t ((j, s) ∷ m) u h =
      ground (arith, string_eq.beq_iff s.id k, string_eq.beq_iff j k, no_own_thread k t m u.2)

  only_own_thread :
      (k : String) (t : StrategyThread) (m : List (String × StrategyThread))
      → AreKeyed m
      → Dict.get k m ≡ some t
      → All (λ (s : StrategyThread). (s.id == k) ≡ true → s ≡ t) (filter p (Dict.values m))
  unfolding Dict.get
  only_own_thread k t [] u h = tt
  only_own_thread k t ((j, s) ∷ m) u h = ground (
    arith,
    string_eq.beq_iff s.id k,
    string_eq.beq_iff j k,
    no_own_thread k t m u.2,
    only_own_thread k t m u.2,
  )

  is_own_kept :
      (k : String) (t : StrategyThread) (m : List (String × StrategyThread))
      → AreKeyed m
      → Dict.get k m ≡ some t
      → p t ≡ true
      → any (λ (s : StrategyThread). s.id == k) (filter p (Dict.values m)) ≡ true
  unfolding Dict.get
  is_own_kept k t [] u h o = absurd (none≢some t h)
  is_own_kept k t ((j, s) ∷ m) u h o =
      ground (arith, string_eq.beq_iff s.id k, string_eq.beq_iff j k, is_own_kept k t m u.2)

-- The exchange took the cancellation, reported no error on the closing, and closed the position or none
-- is known.
abbrev pub IsFlat : HaltReplies → Type 0
IsFlat r =
    (r.cancel_all.ok ≡ true)
    × (given_text r.close.error ≡ none)
    × ((r.close.closed ≡ true) ⊎ (r.is_held ≡ false))

is_failed-IsFlat : (r : HaltReplies) → is_failed r ≡ false → IsFlat r
unfolding is_failed
is_failed-IsFlat r h = ground (arith, h, Option-cases (given_text r.close.error))

IsFlat-is_failed : (r : HaltReplies) → IsFlat r → is_failed r ≡ false
unfolding is_failed
IsFlat-is_failed r f = rw (f.0, f.1) ground (arith, f.2)

contains-filter :
    (f : String → Bool) (x : String) (xs : List String)
    → contains x (filter f xs) ≡ (contains x xs && f x)
contains-filter f x [] = refl
contains-filter f x (y ∷ xs) = ground (arith, contains-filter f x xs, string_eq.beq_iff x y, ap f)

contains-failed :
    (replies : String → HaltReplies) (x : String) (xs : List String)
    → contains x xs ≡ true
    → contains x (failed_symbols replies xs) ≡ is_failed (replies x)
unfolding failed_symbols
contains-failed replies x xs h = contains-filter (λ s. is_failed (replies s)) x xs ∙ rw h refl

-- What a halt leaves of an open thread: an ended one where the exchange's state is known to be flat, and
-- else one that stays open for the reconciliation and says so.
abbrev pub EndsAsFlat : HaltReplies → StrategyThread → StrategyThread → Type 0
EndsAsFlat r t s =
    ((is_open s ≡ false) × (s.close_reason ≡ some "紧急停止") × IsFlat r)
    ⊎ ((is_open s ≡ true)
        × (s.status ≡ t.status)
        × (s.attention ≡ some halt_incomplete)
        × ¬ IsFlat r)

halt_thread-EndsAsFlat :
    (c : HaltTimes) (failed : List String) (r : HaltReplies) (t : StrategyThread)
    → contains t.symbol failed ≡ is_failed r
    → is_open t ≡ true
    → EndsAsFlat r t (halt_thread c failed t)
unfolding halt_thread is_open
halt_thread-EndsAsFlat c failed r t h o = elim (Bool-cases (is_failed r)) [
  | inl b ↦ rw (h, b) (inr (o, refl, refl, λ f. false≢true (sym (IsFlat-is_failed r f) ∙ b)))
  | inr b ↦ rw (h, b) (inl (ground arith, refl, is_failed-IsFlat r b))
]

awake-open : (b : Backend) (t : StrategyThread) → is_awake b t ≡ true → is_open t ≡ true
unfolding is_awake
awake-open b t h = ground (arith, h)

-- The database gives rows that were asked for, and all of them: so it does up to its limit.
abbrev pub AreAllRows : Rows → List StrategyThread → Type 1
AreAllRows rows ts =
    ((P : StrategyThread → Type 0) → All P ts → All P (rows ts))
    × ((p : StrategyThread → Bool) → any p ts ≡ true → any p (rows ts) ≡ true)

-- Let the halt's loop over the symbols end in a state that holds each thread under its own id, and no
-- id twice, and let the database give all open threads of that state. A thread of the running backend
-- that is open in that state, and whose symbol the halt asked for, is ended by the halt when the
-- exchange took the cancellation for its symbol, reported no error on the closing, and closed the
-- position or none is known. Otherwise it stays open with its status and is marked HALT_INCOMPLETE.
pub halt-EndsAsFlat :
    (b : Backend) (rows : Rows) (c : HaltTimes) (positions : List String)
    (replies : String → HaltReplies) (w after : World) (k : String) (t : StrategyThread)
    → flatten_all replies (halt_symbols b rows positions w) (set_halted true w) ≡ after
    → AreKeyed after.threads
    → AreAllRows rows (filter (is_awake b) (Dict.values after.threads))
    → Dict.get k after.threads ≡ some t
    → is_awake b t ≡ true
    → contains t.symbol (halt_symbols b rows positions w) ≡ true
    → (s : StrategyThread) × (Dict.get k (halt b rows c positions replies w).threads ≡ some s)
      × EndsAsFlat (replies t.symbol) t s
unfolding halt open_threads
halt-EndsAsFlat b rows c positions replies w after k t e u all_rows h o asked =
    let failed = failed_symbols replies (halt_symbols b rows positions w) in
    (
      halt_thread c failed t,
      rw e (
          own_thread c failed k t (open_threads b rows after) after
            (all_rows.0 (λ s. (s.id == k) ≡ true → s ≡ t)
              (only_own_thread (is_awake b) k t after.threads u h))
            (all_rows.1 (λ s. s.id == k) (is_own_kept (is_awake b) k t after.threads u h o))),
      halt_thread-EndsAsFlat c failed (replies t.symbol) t
          (contains-failed replies t.symbol (halt_symbols b rows positions w) asked)
          (awake-open b t o),
    )
