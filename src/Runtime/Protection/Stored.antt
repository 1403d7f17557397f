-- ===== src/Runtime/Protection/Stored.antt =====
-- Threads in the store, each under its id.
use trade_gate.Prelude.{
  ◌≡◌, refl, ◌∙◌, sym, ap, some, String, ◌==◌, string_eq, Option-cases, Bool-cases, inl, inr,
}
use mathlib.Core.Option.{some_inj}
use trade_gate.Dict
use trade_gate.Threads.Types.{StrategyThread}
use trade_gate.Runtime.World.{World, Others, outcome_eq, save_thread, thread_or}
use trade_gate.Runtime.Stops.{Going}

-- The store keeps each thread under its own id.
abbrev pub IsKeyed : World → Type 0
IsKeyed w = (k : String) (t : StrategyThread) → Dict.get k w.threads ≡ some t → t.id ≡ k

abbrev pub KeepsKeys : Others → Type 0
KeepsKeys others = (w : World) → IsKeyed w → IsKeyed (others w)

pub save_thread-IsKeyed : (t : StrategyThread) (w : World) → IsKeyed w → IsKeyed (save_thread t w)
unfolding save_thread
save_thread-IsKeyed t w h k s e = elim (Bool-cases (t.id == k)) [
  | inl u ↦
      ap (λ x. x.id) (some_inj.0 (sym e ∙ Dict.get-set_eq k t.id t w.threads u))
      ∙ (string_eq.beq_iff t.id k).0 u
  | inr u ↦ h k s (sym (Dict.get-set_ne k t.id t w.threads u) ∙ e)
]

pub thread_or-id : (t : StrategyThread) (w : World) → IsKeyed w → (thread_or t w).id ≡ t.id
unfolding thread_or
thread_or-id t w h = elim (Option-cases (Dict.get t.id w.threads)) [
  | inl e ↦ rw (e, thread_or) refl
  | inr (s, e) ↦ rw (e, thread_or) (h t.id s e)
]

-- The handler's thread is the one it began with, and the store is in order.
abbrev pub Fits : String → Going → Type 0
Fits id g = (g.thread.id ≡ id) × IsKeyed g.world

-- The store has a thread under the id, and it has the property.
abbrev pub Stored : String → (StrategyThread → Type 0) → World → Type 0
Stored id P w = (s : StrategyThread) × (Dict.get id w.threads ≡ some s) × P s

pub Stored-save :
    (P : StrategyThread → Type 0) (t : StrategyThread) (w : World)
    → P t
    → Stored t.id P (save_thread t w)
unfolding save_thread
Stored-save P t w p = (t, Dict.get-set_self t.id t w.threads, p)
