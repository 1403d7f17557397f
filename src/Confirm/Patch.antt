-- ===== src/Confirm/Patch.antt =====
-- `splitWorkflowPatch`: what the chat may change at once, may only propose, and may never touch.
-- A value of the patch is any value of the language; the code only asks whether it is `true`.
pub mod Routes
pub mod Harmless
use text.Mathlib.TextEquality.{eq_iff}
use trade_gate.Prelude.{
  ◌≡◌, refl, ◌∙◌, sym, Bool, true, false, not, ◌&&◌, ◌||◌, Option, none, some, String, List, [],
  ◌∷◌, ◌++◌, arith, ◌==◌, string_eq, if◌then◌else◌, contains, beq_refl,
}
use trade_gate.Dict

abbrev pub direct_workflow_keys : List String
direct_workflow_keys =
    "narrate" ∷ "info_every_ms" ∷ "heartbeat_every_ms" ∷ "review_every_close" ∷ "scan_mode"
    ∷ "fast_move_pct" ∷ []

abbrev pub proposal_workflow_keys : List String
proposal_workflow_keys =
    "watchlist" ∷ "watch_only" ∷ "timeframe" ∷ "playbook_text" ∷ "brain" ∷ "brain_model"
    ∷ "cheap_brain" ∷ "cheap_brain_model" ∷ []

unfoldable pub is_direct_key : String → Bool
is_direct_key k = contains k direct_workflow_keys

unfoldable pub is_proposal_key : String → Bool
is_proposal_key k = contains k proposal_workflow_keys

pub record Split {ℓ} (V : Type ℓ) : Type ℓ where
  pub direct : List (String × V)
  pub proposal : List (String × V)
  pub refused : List String

module _ {ℓ} {V : Type ℓ} (is_true : V → Bool) where
  -- The body of the loop.
  unfoldable pub split_entry : Split V → String → V → Split V
  split_entry s k v =
      if is_direct_key k
      then record s { direct = Dict.set k v s.direct }
      else if is_proposal_key k
      then record s { proposal = Dict.set k v s.proposal }
      else if k == "paused"
      then (if is_true v
          then record s { direct = Dict.set k v s.direct }
          else record s { proposal = Dict.set k v s.proposal })
      else record s { refused = s.refused ++ k ∷ [] }

  unfoldable pub split_entries : Split V → List (String × V) → Split V
  unfolding split_entry
  split_entries s [] = s
  split_entries s ((k, v) ∷ patch) = split_entries (split_entry s k v) patch

  -- `patch ?? {}`
  unfoldable pub split_workflow_patch : Option (List (String × V)) → Split V
  unfolding split_entries is_direct_key is_proposal_key
  split_workflow_patch none = record { direct = []; proposal = []; refused = [] }
  split_workflow_patch (some patch) =
      split_entries (record { direct = []; proposal = []; refused = [] }) patch
