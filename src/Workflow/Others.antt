-- ===== src/Workflow/Others.antt =====
-- The fields of a patch that store into no list of symbols that is watched.
use trade_gate.Prelude.{ℕ, String, List, All}
use trade_gate.Numbers.{Numbers}
use trade_gate.Workflow.Values.{Language}
use trade_gate.Workflow.Types.{Workflow}
use trade_gate.Workflow.Kept.{Keeps, other-Keeps}
use trade_gate.Workflow.Patch.{other_fields, screener_fields, last_fields}

infixr 30 ◌also◌
-- One more handler that keeps.
pub ◌also◌ {ℓ κ} : {A : Type ℓ} {B : Type κ} → A → B → A × B
a also b = (a, b)

module _ (N : Numbers) where
  -- A predicate on the watchlist, what is only watched, and the maximum.
  abbrev pub OnLists : (List String → List String → ℕ → Type 0) → Workflow N → Type 0
  OnLists Q w = Q w.watchlist w.watch_only w.watchlist_max

module _ (N : Numbers) (L : Language N) (Q : List String → List String → ℕ → Type 0) where
  pub other_fields-Keeps : All (Keeps N L (OnLists N Q)) (other_fields N L)
  other_fields-Keeps =
      other-Keeps N L (OnLists N Q) _ _ _ (λ a w p. p)
      also other-Keeps N L (OnLists N Q) _ _ _ (λ a w p. p)
      also other-Keeps N L (OnLists N Q) _ _ _ (λ a w p. p)
      also other-Keeps N L (OnLists N Q) _ _ _ (λ a w p. p)
      also other-Keeps N L (OnLists N Q) _ _ _ (λ a w p. p)
      also other-Keeps N L (OnLists N Q) _ _ _ (λ a w p. p)
      also other-Keeps N L (OnLists N Q) _ _ _ (λ a w p. p)
      also other-Keeps N L (OnLists N Q) _ _ _ (λ a w p. p)
      also other-Keeps N L (OnLists N Q) _ _ _ (λ a w p. p)
      also other-Keeps N L (OnLists N Q) _ _ _ (λ a w p. p)
      also other-Keeps N L (OnLists N Q) _ _ _ (λ a w p. p)
      also other-Keeps N L (OnLists N Q) _ _ _ (λ a w p. p)
      also other-Keeps N L (OnLists N Q) _ _ _ (λ a w p. p)
      also other-Keeps N L (OnLists N Q) _ _ _ (λ a w p. p)
      also other-Keeps N L (OnLists N Q) _ _ _ (λ a w p. p)
      also other-Keeps N L (OnLists N Q) _ _ _ (λ a w p. p)
      also tt

  pub screener_fields-Keeps : All (Keeps N L (OnLists N Q)) (screener_fields N L)
  screener_fields-Keeps =
      other-Keeps N L (OnLists N Q) _ _ _ (λ a w p. p)
      also other-Keeps N L (OnLists N Q) _ _ _ (λ a w p. p)
      also other-Keeps N L (OnLists N Q) _ _ _ (λ a w p. p)
      also other-Keeps N L (OnLists N Q) _ _ _ (λ a w p. p)
      also other-Keeps N L (OnLists N Q) _ _ _ (λ a w p. p)
      also other-Keeps N L (OnLists N Q) _ _ _ (λ a w p. p)
      also other-Keeps N L (OnLists N Q) _ _ _ (λ a w p. p)
      also other-Keeps N L (OnLists N Q) _ _ _ (λ a w p. p)
      also other-Keeps N L (OnLists N Q) _ _ _ (λ a w p. p)
      also other-Keeps N L (OnLists N Q) _ _ _ (λ a w p. p)
      also tt

  pub last_fields-Keeps : All (Keeps N L (OnLists N Q)) (last_fields N L)
  last_fields-Keeps =
      other-Keeps N L (OnLists N Q) _ _ _ (λ a w p. p)
      also other-Keeps N L (OnLists N Q) _ _ _ (λ a w p. p)
      also other-Keeps N L (OnLists N Q) _ _ _ (λ a w p. p)
      also other-Keeps N L (OnLists N Q) _ _ _ (λ a w p. p)
      also other-Keeps N L (OnLists N Q) _ _ _ (λ a w p. p)
      also other-Keeps N L (OnLists N Q) _ _ _ (λ a w p. p)
      also other-Keeps N L (OnLists N Q) _ _ _ (λ a w p. p)
      also other-Keeps N L (OnLists N Q) _ _ _ (λ a w p. p)
      also other-Keeps N L (OnLists N Q) _ _ _ (λ a w p. p)
      also other-Keeps N L (OnLists N Q) _ _ _ (λ a w p. p)
      also other-Keeps N L (OnLists N Q) _ _ _ (λ a w p. p)
      also other-Keeps N L (OnLists N Q) _ _ _ (λ a w p. p)
      also tt
