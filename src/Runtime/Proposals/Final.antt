-- ===== src/Runtime/Proposals/Final.antt =====
-- What is settled about a proposal stays settled.
use trade_gate.Prelude.{
  ℕ, ◌≡◌, refl, true, false, ◌∙◌, sym, ap, Option, some, String, List, [], ◌∷◌, arith, ◌==◌,
  string_eq, Option-cases, Bool-cases, inl, inr, subst,
}
use mathlib.Core.Option.{some_inj}
use trade_gate.Dict
use trade_gate.Numbers.{Numbers}
use trade_gate.Threads.Types.{Backend}
use trade_gate.Workflow.Values.{Language}
use trade_gate.Workflow.Fields.{Patch}
use trade_gate.Confirm.{Tokens, Consumed, ok, refused}
use trade_gate.Runtime.Settings.{Setting}
use trade_gate.Runtime.Proposals.{
  pending, ProposalError, not_pending, WorkflowProposal, Desk, expire, expire_all,
  workflow_proposals, new_proposal, propose_workflow, reject_found, reject_workflow_proposal,
  blocked, IssueTimes, issue_proposal_confirmation, ApplyTimes, apply_confirmed, apply_consumed,
  apply_workflow_proposal, DeskEvent, lists, proposes, issues, applies, rejects, sets, chats,
  asks_tokens, set_direct, propose_rest, chat_split, chat_set_workflow, desk_step, desk_run,
  status_eq,
}

module _ (N : Numbers) where
  get-expire_all :
      (k : String) (now : ℕ) (ps : List (String × WorkflowProposal N)) (p : WorkflowProposal N)
      → Dict.get k ps ≡ some p
      → Dict.get k (expire_all N now ps) ≡ some (expire N now p)
  unfolding Dict.get expire_all
  get-expire_all k now [] p h = absurd (ground (arith, h))
  get-expire_all k now ((j, q) ∷ ps) p h = ground (arith, h, get-expire_all k now ps p)

  -- The proposal under `id` is `p`.
  abbrev pub Stands : String → WorkflowProposal N → Desk N → Type 0
  Stands id p d = Dict.get id d.proposals ≡ some p

  -- A write under another id, or of nothing.
  Stands-set :
      (id k : String) (p q : WorkflowProposal N) (d : Desk N)
      → (k == id) ≡ false
      → Stands id p d
      → Dict.get id (Dict.set k q d.proposals) ≡ some p
  Stands-set id k p q d e h = Dict.get-set_ne id k q d.proposals e ∙ h

  abbrev pub IsSettled : WorkflowProposal N → Type 0
  IsSettled p = (p.status == pending) ≡ false

  module _ (L : Language N) (kind : Backend) where
    module _ (hash : String → Patch N → List (String × Setting) → String) (id : String)
        (p : WorkflowProposal N) (s : IsSettled p) where
      expire-settled : (now : ℕ) → expire N now p ≡ p
      unfolding expire
      expire-settled now = ground (arith, s)

      blocked-settled : (now : ℕ) → (e : ProposalError) × (blocked N L kind now p ≡ some e)
      unfolding blocked
      blocked-settled now = (not_pending p.status, ground (arith, s))

      apply_consumed-Stands :
          (k : String) (q : WorkflowProposal N) (t : ApplyTimes N L kind hash)
          (r : Tokens × Consumed) (d : Desk N)
          → (k == id) ≡ false
          → Stands id p d
          → Stands id p (apply_consumed N L kind hash k q t r d).0
      unfolding apply_consumed apply_confirmed
      apply_consumed-Stands k q t (tokens, refused c) d e h = h
      apply_consumed-Stands k q t (tokens, ok) d e h = Stands-set id k p _ d e h

      apply_other-Stands :
          (k : String) (given : Option String) (t : ApplyTimes N L kind hash) (d : Desk N)
          → (k == id) ≡ false
          → Stands id p d
          → Stands id p (apply_workflow_proposal N L kind hash k given t d).0
      unfolding apply_workflow_proposal
      apply_other-Stands k given t d u h = elim (Option-cases (Dict.get k d.proposals)) [
        | inl e ↦ rw (e, apply_workflow_proposal) h
        | inr (q, e) ↦ elim (Option-cases (blocked N L kind t.check_now q)) [
          | inr (x, f) ↦ rw (e, f, apply_workflow_proposal) h
          | inl f ↦ rw (e, f, apply_workflow_proposal) (apply_consumed-Stands k q t _ d u h)
        ]
      ]

      apply_settled :
          (given : Option String) (t : ApplyTimes N L kind hash) (d : Desk N)
          → Stands id p d
          → (apply_workflow_proposal N L kind hash id given t d).0 ≡ d
      unfolding apply_workflow_proposal
      apply_settled given t d h =
          let (x, f) = blocked-settled t.check_now in rw (h, f, apply_workflow_proposal) refl

      apply-Stands :
          (k : String) (given : Option String) (t : ApplyTimes N L kind hash) (d : Desk N)
          → Stands id p d
          → Stands id p (apply_workflow_proposal N L kind hash k given t d).0
      apply-Stands k given t d h = elim (Bool-cases (k == id)) [
        | inr u ↦ apply_other-Stands k given t d u h
        | inl u ↦
            subst (λ i. Stands id p (apply_workflow_proposal N L kind hash i given t d).0)
              (sym ((string_eq.beq_iff k id).0 u)) (rw (apply_settled given t d h) h)
      ]

      issue-Stands :
          (k : String) (t : IssueTimes N L kind hash) (d : Desk N)
          → Stands id p d
          → Stands id p (issue_proposal_confirmation N L kind hash k t d).0
      unfolding issue_proposal_confirmation
      issue-Stands k t d h = elim (Option-cases (Dict.get k d.proposals)) [
        | inl e ↦ rw (e, issue_proposal_confirmation) h
        | inr (q, e) ↦ elim (Option-cases (blocked N L kind t.check_now q)) [
          | inr (x, f) ↦ rw (e, f, issue_proposal_confirmation) h
          | inl f ↦ rw (e, f, issue_proposal_confirmation) h
        ]
      ]

      settled_pending : (q : WorkflowProposal N) → q ≡ p → (q.status == pending) ≡ true → ⊥
      settled_pending q e f = ground (arith, s, ap (λ x. x.status) e, f)

      -- A found proposal is either another one or settled.
      reject_found-Stands :
          (k : String) (now : ℕ) (q : WorkflowProposal N) (d : Desk N)
          → Stands k q d
          → Stands id p d
          → Stands id p (reject_found N L kind k now d q).0
      unfolding reject_found
      reject_found-Stands k now q d e h = elim (Bool-cases (q.status == pending)) [
        | inr f ↦ rw (f, reject_found) h
        | inl f ↦ elim (Bool-cases (k == id)) [
          | inr u ↦ rw (f, reject_found) (Stands-set id k p _ d u h)
          | inl u ↦ absurd (
              settled_pending q
                (some_inj.0
                  (sym e ∙ ap (λ i. Dict.get i d.proposals) ((string_eq.beq_iff k id).0 u) ∙ h))
                f)
        ]
      ]

      reject-Stands :
          (k : String) (now : ℕ) (d : Desk N)
          → Stands id p d
          → Stands id p (reject_workflow_proposal N L kind k now d).0
      unfolding reject_workflow_proposal
      reject-Stands k now d h = elim (Option-cases (Dict.get k d.proposals)) [
        | inl e ↦ rw (e, reject_workflow_proposal) h
        | inr (q, e) ↦ rw (e, reject_workflow_proposal) (reject_found-Stands k now q d e h)
      ]

    -- No event proposes under `id`.
    abbrev pub NeverProposes :
        (hash : String → Patch N → List (String × Setting) → String)
        → String
        → List (DeskEvent N L kind hash)
        → Type 0
    NeverProposes hash id [] = Unit
    NeverProposes hash id (proposes patch session k patch_now now ∷ es) =
        ((k == id) ≡ false) × NeverProposes hash id es
    NeverProposes hash id (chats a ∷ es) = ((a.id == id) ≡ false) × NeverProposes hash id es
    NeverProposes hash id (_ ∷ es) = NeverProposes hash id es

    module _ (hash : String → Patch N → List (String × Setting) → String) where
      direct-Stands :
          (patch : Patch N) (now : ℕ) (id : String) (p : WorkflowProposal N) (d : Desk N)
          → Stands id p d
          → Stands id p (set_direct N L kind hash patch now d)
      unfolding set_direct
      direct-Stands [] now id p d h = h
      direct-Stands (e ∷ patch) now id p d h = h

      rest-Stands :
          (patch : Patch N) (session : Option String) (k : String) (patch_now now : ℕ) (id : String)
          (p : WorkflowProposal N) (d : Desk N)
          → (k == id) ≡ false
          → Stands id p d
          → Stands id p (propose_rest N L kind hash patch session k patch_now now d)
      unfolding propose_rest propose_workflow new_proposal
      rest-Stands [] session k patch_now now id p d f h = h
      rest-Stands (e ∷ patch) session k patch_now now id p d f h = Stands-set id k p _ d f h

      -- A proposal that is no longer pending stays as it is, whatever is listed, issued, applied,
      -- rejected or set later, and whatever is proposed under other ids.
      pub desk_run-final :
          (d : Desk N) (es : List (DeskEvent N L kind hash)) (id : String) (p : WorkflowProposal N)
          → Dict.get id d.proposals ≡ some p
          → (p.status == pending) ≡ false
          → NeverProposes hash id es
          → Dict.get id (desk_run N L kind hash d es).proposals ≡ some p
      unfolding desk_run desk_step workflow_proposals propose_workflow new_proposal
          chat_set_workflow
      desk_run-final d [] id p h s f = h
      desk_run-final d (lists now ∷ es) id p h s f =
          desk_run-final (desk_step N L kind hash d (lists now)) es id p
            (get-expire_all id now d.proposals p h
              ∙ ap (λ q. some q) (expire-settled hash id p s now))
            s f
      desk_run-final d (proposes patch session k patch_now now ∷ es) id p h s f =
          desk_run-final (desk_step N L kind hash d (proposes patch session k patch_now now)) es id
            p (Stands-set id k p _ d f.0 h) s f.1
      desk_run-final d (issues k t ∷ es) id p h s f =
          desk_run-final (desk_step N L kind hash d (issues k t)) es id p
            (issue-Stands hash id p s k t d h) s f
      desk_run-final d (applies k given t ∷ es) id p h s f =
          desk_run-final (desk_step N L kind hash d (applies k given t)) es id p
            (apply-Stands hash id p s k given t d h) s f
      desk_run-final d (rejects k now ∷ es) id p h s f =
          desk_run-final (desk_step N L kind hash d (rejects k now)) es id p
            (reject-Stands hash id p s k now d h) s f
      desk_run-final d (sets by patch now ∷ es) id p h s f =
          desk_run-final (desk_step N L kind hash d (sets by patch now)) es id p h s f
      desk_run-final d (asks_tokens e ∷ es) id p h s f =
          desk_run-final (desk_step N L kind hash d (asks_tokens e)) es id p h s f
      desk_run-final d (chats a ∷ es) id p h s f =
          let split = chat_split N L kind hash a in
          desk_run-final (desk_step N L kind hash d (chats a)) es id p
            (rest-Stands split.proposal a.session_id a.id a.patch_now a.now id p _ f.0
              (direct-Stands split.direct a.set_now id p d h))
            s f.1
