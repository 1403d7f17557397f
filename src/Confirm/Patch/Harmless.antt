-- ===== src/Confirm/Patch/Harmless.antt =====
-- What `splitWorkflowPatch` lets the chat set at once.
use trade_gate.Prelude.{
  All, true, Bool, ◌≡◌, sym, Option, none, some, String, List, [], ◌∷◌, arith, ◌==◌, Bool-cases,
  inl, inr, subst, string_eq,
}
use trade_gate.Dict
use trade_gate.Confirm.Patch.{
  Split, split_workflow_patch, split_entry, split_entries, is_direct_key, is_proposal_key,
}
use trade_gate.Confirm.Patch.Routes.{may_apply}
use trade_gate.Runtime.Proposals.{status_eq}

module _ {ℓ} {V : Type ℓ} (is_true : V → Bool) where
  -- What the chat may set at once: the harmless keys, and a pause.
  abbrev pub IsHarmless : List (String × V) → Type 0
  IsHarmless patch = All (λ (e : String × V). may_apply is_true e.0 e.1 ≡ true) patch

  set-IsHarmless :
      (k : String) (v : V) (m : List (String × V))
      → may_apply is_true k v ≡ true
      → IsHarmless m
      → IsHarmless (Dict.set k v m)
  unfolding Dict.set
  set-IsHarmless k v [] h a = (h, tt)
  set-IsHarmless k v ((j, w) ∷ m) h a = elim (Bool-cases (j == k)) [
    | inl u ↦
        rw u (subst (λ x. may_apply is_true x v ≡ true) (sym ((string_eq.beq_iff j k).0 u)) h, a.1)
    | inr u ↦ rw u (a.0, set-IsHarmless k v m h a.1)
  ]

  entry-IsHarmless :
      (s : Split V) (k : String) (v : V)
      → IsHarmless s.direct
      → IsHarmless (split_entry is_true s k v).direct
  unfolding split_entry
  entry-IsHarmless s k v a =
      let new = λ (h : may_apply is_true k v ≡ true). set-IsHarmless k v s.direct h a in
      elim (Bool-cases (is_direct_key k)) [
        | inl u ↦ rw (u, split_entry) (new (ground (arith, u)))
        | inr u ↦ elim (Bool-cases (is_proposal_key k)) [
          | inl x ↦ rw (u, x, split_entry) a
          | inr x ↦ elim (Bool-cases (k == "paused")) [
            | inr y ↦ rw (u, x, y, split_entry) a
            | inl y ↦ elim (Bool-cases (is_true v)) [
              | inl z ↦ rw (u, x, y, z, split_entry) (new (ground (arith, y, z)))
              | inr z ↦ rw (u, x, y, z, split_entry) a
            ]
          ]
        ]
      ]

  entries-IsHarmless :
      (s : Split V) (patch : List (String × V))
      → IsHarmless s.direct
      → IsHarmless (split_entries is_true s patch).direct
  unfolding split_entries
  entries-IsHarmless s [] a = a
  entries-IsHarmless s ((k, v) ∷ patch) a =
      entries-IsHarmless (split_entry is_true s k v) patch (entry-IsHarmless s k v a)

  pub split-IsHarmless :
      (patch : Option (List (String × V))) → IsHarmless (split_workflow_patch is_true patch).direct
  unfolding split_workflow_patch
  split-IsHarmless none = tt
  split-IsHarmless (some patch) =
      entries-IsHarmless (record { direct = []; proposal = []; refused = [] }) patch tt
