-- ===== src/Threads/Opening.antt =====
-- `isOpen` and `openingBlockers` of threads.ts, and the steps of a set of threads that they guard.
-- The texts of the blockers are for people; a blocker is its case.
pub mod Limits
use trade_gate.Prelude.{
  ℕ, ◌≡◌, Bool, true, false, ◌&&◌, String, List, [], ◌∷◌, ◌++◌, leb, ◌==◌, string_eq, any, filter,
  length, if◌then◌else◌,
}
use trade_gate.Numbers.{Numbers}
use trade_gate.Graph.Types.{pending_entry, in_position}
use trade_gate.Threads.Types.{StrategyThread, NewThread, new_thread}
use trade_gate.Threads.Facts.{ThreadFacts}
use trade_gate.Threads.Reconcile.{reconcile_thread}

-- The limits of a workflow that opening reads.
pub record Workflow : Type 0 where
  pub max_open_threads : ℕ
  pub max_opens_per_day : ℕ

unfoldable pub is_open : StrategyThread → Bool
is_open t = elim t.status [ pending_entry ↦ true | in_position ↦ true | _ ↦ false ]

pub data Blocker : Type 0 where
  symbol_taken threads_full day_full loss_stop : Blocker

-- `if (b) out.push(blocker)`, before what is pushed later.
abbrev push_if : Bool → Blocker → List Blocker → List Blocker
push_if b x rest = if b then x ∷ rest else rest

unfoldable pub opening_blockers : List StrategyThread → Workflow → String → ℕ → Bool → List Blocker
unfolding is_open
opening_blockers threads workflow symbol opens_today daily_loss_hit =
    let open_threads = filter is_open threads in
    push_if (any (λ t. t.symbol == symbol) open_threads) symbol_taken (
      push_if (leb workflow.max_open_threads (length open_threads)) threads_full (
        push_if (leb workflow.max_opens_per_day opens_today) day_full
          (push_if daily_loss_hit loss_stop [])))

-- A step of the program's threads: one is opened that nothing blocks, or one is reconciled.
pub data ThreadStep (N : Numbers) (w : Workflow)
    : List StrategyThread → List StrategyThread → Type 0 where
  opens :
      {ts : List StrategyThread} (input : NewThread) (opens_today : ℕ) (loss : Bool)
      → opening_blockers ts w input.symbol opens_today loss ≡ []
      → ThreadStep N w ts (new_thread input ∷ ts)
  reconciles :
      (before : List StrategyThread) (t : StrategyThread) (after : List StrategyThread)
      (f : ThreadFacts)
      → ThreadStep N w (before ++ t ∷ after) (before ++ (reconcile_thread N t f).next ∷ after)

-- Steps one after the other.
pub data ThreadSteps (N : Numbers) (w : Workflow)
    : List StrategyThread → List StrategyThread → Type 0 where
  done : {ts : List StrategyThread} → ThreadSteps N w ts ts
  followed_by :
      {ts us vs : List StrategyThread}
      → ThreadSteps N w ts us
      → ThreadStep N w us vs
      → ThreadSteps N w ts vs
