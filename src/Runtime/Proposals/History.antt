-- ===== src/Runtime/Proposals/History.antt =====
-- What the events of the desk ask of the store of tokens, which is a history of confirm.ts.
use trade_gate.Prelude.{
  ℕ, ◌≡◌, refl, ◌⊎◌, ◌∙◌, sym, ap, Option, none, some, String, List, [], ◌∷◌, ◌++◌, ◌==◌,
  Option-cases, Bool-cases, inl, inr, string_eq,
}
use trade_gate.Dict
use trade_gate.Numbers.{Numbers}
use trade_gate.Threads.Types.{Backend}
use trade_gate.Workflow.Values.{Language}
use trade_gate.Workflow.Fields.{Patch}
use trade_gate.Confirm.{Tokens, Consumed, ok, refused, ConfirmEvent, confirm_step, confirm_run}
use trade_gate.Runtime.Settings.{Setting, set_workflow}
use trade_gate.Runtime.Proposals.{
  pending, WorkflowProposal, Desk, blocked, IssueTimes, issue_request, issue_proposal_confirmation,
  ApplyTimes, apply_confirmed, apply_consumed, apply_workflow_proposal, consume_request,
  workflow_proposals, propose_workflow, reject_found, reject_workflow_proposal, DeskEvent, lists,
  proposes, issues, applies, rejects, sets, chats, asks_tokens, ChatCall, set_direct, propose_rest,
  chat_split, chat_set_workflow, desk_step, desk_run, status_eq,
}

module _ (N : Numbers) (L : Language N) (kind : Backend)
    (hash : String → Patch N → List (String × Setting) → String) where
  abbrev pub Event : Type 0
  Event = DeskEvent N L kind hash

  -- The request that a proposal's confirmation makes of the store of tokens, if it makes one.
  unfoldable pub issue_of :
      Option (WorkflowProposal N) → IssueTimes N L kind hash → Desk N → List ConfirmEvent
  issue_of none t d = []
  issue_of (some p) t d = elim (blocked N L kind t.check_now p) [
    | some _ ↦ []
    | none ↦ ConfirmEvent.issues (issue_request N L kind hash d.held.workflow p t) ∷ []
  ]

  unfoldable pub consume_of :
      Option (WorkflowProposal N)
      → Option String
      → ApplyTimes N L kind hash
      → Desk N
      → List ConfirmEvent
  consume_of none given t d = []
  consume_of (some p) given t d = elim (blocked N L kind t.check_now p) [
    | some _ ↦ []
    | none ↦ ConfirmEvent.consumes (consume_request N L kind hash d.held.workflow p given t) ∷ []
  ]

  -- What an event asks of the store of tokens.
  unfoldable pub asked : Desk N → Event → List ConfirmEvent
  unfolding issue_of consume_of
  asked d (issues id t) = issue_of (Dict.get id d.proposals) t d
  asked d (applies id given t) = consume_of (Dict.get id d.proposals) given t d
  asked d (asks_tokens e) = e ∷ []
  asked d _ = []

  unfoldable pub history : Desk N → List Event → List ConfirmEvent
  unfolding asked
  history d [] = []
  history d (e ∷ es) = asked d e ++ history (desk_step N L kind hash d e) es

  issues-tokens :
      (id : String) (t : IssueTimes N L kind hash) (d : Desk N)
      → (issue_proposal_confirmation N L kind hash id t d).0.tokens
        ≡ confirm_run d.tokens (asked d (issues id t))
  unfolding issue_proposal_confirmation asked issue_of confirm_run confirm_step
  issues-tokens id t d = elim (Option-cases (Dict.get id d.proposals)) [
    | inl e ↦ rw (e, issue_proposal_confirmation, asked) refl
    | inr (p, e) ↦ elim (Option-cases (blocked N L kind t.check_now p)) [
      | inl f ↦ rw (e, f, issue_proposal_confirmation, asked, issue_of) refl
      | inr (x, f) ↦ rw (e, f, issue_proposal_confirmation, asked, issue_of) refl
    ]
  ]

  apply_consumed-tokens :
      (id : String) (p : WorkflowProposal N) (t : ApplyTimes N L kind hash) (r : Tokens × Consumed)
      (d : Desk N)
      → (apply_consumed N L kind hash id p t r d).0.tokens ≡ r.0
  unfolding apply_consumed apply_confirmed
  apply_consumed-tokens id p t (tokens, refused c) d = refl
  apply_consumed-tokens id p t (tokens, ok) d = refl

  applies-tokens :
      (id : String) (given : Option String) (t : ApplyTimes N L kind hash) (d : Desk N)
      → (apply_workflow_proposal N L kind hash id given t d).0.tokens
        ≡ confirm_run d.tokens (asked d (applies id given t))
  unfolding apply_workflow_proposal asked consume_of confirm_run confirm_step
  applies-tokens id given t d = elim (Option-cases (Dict.get id d.proposals)) [
    | inl e ↦ rw (e, apply_workflow_proposal, asked) refl
    | inr (p, e) ↦ elim (Option-cases (blocked N L kind t.check_now p)) [
      | inl f ↦
          rw (e, f, apply_workflow_proposal, asked, consume_of) (apply_consumed-tokens id p t _ d)
      | inr (x, f) ↦ rw (e, f, apply_workflow_proposal, asked, consume_of) refl
    ]
  ]

  rejects-tokens :
      (id : String) (now : ℕ) (d : Desk N)
      → (reject_workflow_proposal N L kind id now d).0.tokens ≡ d.tokens
  unfolding reject_workflow_proposal reject_found
  rejects-tokens id now d = elim (Option-cases (Dict.get id d.proposals)) [
    | inl e ↦ rw (e, reject_workflow_proposal) refl
    | inr (p, e) ↦ elim (Bool-cases (p.status == pending)) [
      | inl f ↦ rw (e, f, reject_workflow_proposal, reject_found) refl
      | inr f ↦ rw (e, f, reject_workflow_proposal, reject_found) refl
    ]
  ]

  pub direct-kept :
      (patch : Patch N) (now : ℕ) (d : Desk N)
      → ((set_direct N L kind hash patch now d).tokens ≡ d.tokens)
        × (((set_direct N L kind hash patch now d).held ≡ d.held)
            ⊎ ((set_direct N L kind hash patch now d).held
                ≡ (set_workflow N L kind patch now d.held).held))
  unfolding set_direct
  direct-kept [] now d = (refl, inl refl)
  direct-kept (e ∷ patch) now d = (refl, inr refl)

  pub rest-kept :
      (patch : Patch N) (session : Option String) (id : String) (patch_now now : ℕ) (d : Desk N)
      → let after = propose_rest N L kind hash patch session id patch_now now d in
        (after.tokens ≡ d.tokens) × (after.held ≡ d.held)
  unfolding propose_rest propose_workflow
  rest-kept [] session id patch_now now d = (refl, refl)
  rest-kept (e ∷ patch) session id patch_now now d = (refl, refl)

  chat-tokens :
      (a : ChatCall N L kind hash) (d : Desk N)
      → (chat_set_workflow N L kind hash a d).tokens ≡ d.tokens
  unfolding chat_set_workflow
  chat-tokens a d =
      let split = chat_split N L kind hash a in
      (rest-kept split.proposal a.session_id a.id a.patch_now a.now _).0
      ∙ (direct-kept split.direct a.set_now d).0

  step-tokens :
      (d : Desk N) (e : Event)
      → (desk_step N L kind hash d e).tokens ≡ confirm_run d.tokens (asked d e)
  unfolding desk_step asked confirm_run workflow_proposals propose_workflow
  step-tokens d (lists now) = refl
  step-tokens d (proposes patch session id patch_now now) = refl
  step-tokens d (issues id t) = issues-tokens id t d
  step-tokens d (applies id given t) = applies-tokens id given t d
  step-tokens d (rejects id now) = rejects-tokens id now d
  step-tokens d (sets by patch now) = refl
  step-tokens d (asks_tokens e) = refl
  step-tokens d (chats a) = chat-tokens a d

  confirm_run-append :
      (tokens : Tokens) (es fs : List ConfirmEvent)
      → confirm_run tokens (es ++ fs) ≡ confirm_run (confirm_run tokens es) fs
  unfolding confirm_run
  confirm_run-append tokens [] fs = refl
  confirm_run-append tokens (e ∷ es) fs = confirm_run-append (confirm_step tokens e) es fs

  -- The desk's store of tokens is what its history of requests makes of the first one.
  pub desk_run-tokens :
      (d : Desk N) (es : List Event)
      → (desk_run N L kind hash d es).tokens ≡ confirm_run d.tokens (history d es)
  unfolding desk_run history confirm_run
  desk_run-tokens d [] = refl
  desk_run-tokens d (e ∷ es) =
      let d' = desk_step N L kind hash d e in
      desk_run-tokens d' es
      ∙ ap (λ ts. confirm_run ts (history d' es)) (step-tokens d e)
      ∙ sym (confirm_run-append d.tokens (asked d e) (history d' es))
