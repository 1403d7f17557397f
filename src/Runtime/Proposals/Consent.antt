-- ===== src/Runtime/Proposals/Consent.antt =====
-- Where the settings change, and what that needs.
use trade_gate.Prelude.{
  ℕ, ◌+◌, ◌<◌, ◌≡◌, refl, ◌⊎◌, ◌∙◌, sym, ap, Option, none, some, String, List, [], arith, ◌==◌,
  Option-cases, Bool-cases, inl, inr, subst, string_eq,
}
use trade_gate.Dict
use trade_gate.Numbers.{Numbers}
use trade_gate.Threads.Types.{Backend}
use trade_gate.Workflow.Values.{Language}
use trade_gate.Workflow.Fields.{Patch}
use trade_gate.Confirm.{
  Tokens, Consumed, ok, refused, consume, ConfirmEvent, confirm_run, workflow_proposal,
  confirm_ttl_ms, IssueRequest,
}
use trade_gate.Confirm.Issued.{Made, consume-Made}
use trade_gate.Runtime.Settings.{Setting, set_workflow}
use trade_gate.Runtime.Proposals.{
  pending, WorkflowProposal, Desk, current_of, blocked, IssueTimes, issue_proposal_confirmation,
  ApplyTimes, apply_confirmed, apply_consumed, apply_workflow_proposal, consume_request,
  proposal_fingerprint, workflow_proposals, propose_workflow, reject_found,
  reject_workflow_proposal, DeskEvent, lists, proposes, issues, applies, rejects, sets, chats,
  asks_tokens, is_true, ChatCall, chat_split, chat_set_workflow, desk_step, desk_run, status_eq,
}
use trade_gate.Runtime.Proposals.History.{history, desk_run-tokens, direct-kept, rest-kept}
use trade_gate.Confirm.Patch.Harmless.{IsHarmless, split-IsHarmless}

module _ (N : Numbers) (L : Language N) (kind : Backend)
    (hash : String → Patch N → List (String × Setting) → String) where
  abbrev Event : Type 0
  Event = DeskEvent N L kind hash

  -- The settings and the proposals are as they were.
  abbrev pub IsUntouched : Desk N → Desk N → Type 0
  IsUntouched before after = (after.held ≡ before.held) × (after.proposals ≡ before.proposals)

  -- What an application needs: a pending proposal in time, and a request that issued its token for
  -- this proposal, its patch and the present settings under these keys, not too long ago.
  abbrev pub IsConfirmed :
      List ConfirmEvent
      → Option String
      → ApplyTimes N L kind hash
      → Desk N
      → WorkflowProposal N
      → Type 0
  IsConfirmed past given t d p =
      (p.status ≡ pending)
      × (t.check_now < p.expires_at)
      × ((q : IssueRequest) × Made past q
          × (given ≡ some q.nonce)
          × (q.kind ≡ workflow_proposal)
          × (q.target_id ≡ p.id)
          × (q.fingerprint ≡ hash p.id p.patch (current_of N d.held.workflow p.patch))
          × (t.token_now < q.expires_now + confirm_ttl_ms))

  unblocked :
      (now : ℕ) (p : WorkflowProposal N)
      → blocked N L kind now p ≡ none
      → (p.status ≡ pending) × (now < p.expires_at)
  unfolding blocked
  unblocked now p h = ground (arith, h, status_eq.beq_iff p.status pending)

  -- The settings that an application leaves: those of `setWorkflow` on the proposal's patch.
  abbrev pub IsApplied : ApplyTimes N L kind hash → Desk N → Desk N → WorkflowProposal N → Type 0
  IsApplied t before after p =
      after.held ≡ (set_workflow N L kind p.patch t.patch_now before.held).held

  abbrev Outcome :
      List ConfirmEvent
      → String
      → Option String
      → ApplyTimes N L kind hash
      → Desk N
      → Desk N
      → Type 0
  Outcome past id given t before after =
      IsUntouched before after
      ⊎ ((p : WorkflowProposal N) × (Dict.get id before.proposals ≡ some p)
          × IsConfirmed past given t before p
          × IsApplied t before after p)

  consumed_outcome :
      (past : List ConfirmEvent) (id : String) (given : Option String)
      (t : ApplyTimes N L kind hash) (d : Desk N) (p : WorkflowProposal N) (r : Tokens × Consumed)
      → Dict.get id d.proposals ≡ some p
      → (r.1 ≡ ok → IsConfirmed past given t d p)
      → Outcome past id given t d (apply_consumed N L kind hash id p t r d).0
  unfolding apply_consumed apply_confirmed
  consumed_outcome past id given t d p (tokens, refused c) e h = inl (refl, refl)
  consumed_outcome past id given t d p (tokens, ok) e h = inr (p, e, h refl, refl)

  confirmed :
      (past : List ConfirmEvent) (given : Option String) (t : ApplyTimes N L kind hash) (d : Desk N)
      (p : WorkflowProposal N)
      → d.tokens ≡ confirm_run [] past
      → blocked N L kind t.check_now p ≡ none
      → (consume (consume_request N L kind hash d.held.workflow p given t) d.tokens).1 ≡ ok
      → IsConfirmed past given t d p
  unfolding consume_request proposal_fingerprint
  confirmed past given t d p h f c =
      let (s, x) = unblocked t.check_now p f in
      let r = consume_request N L kind hash d.held.workflow p given t in
      (s, x, consume-Made past r (subst (λ ts. (consume r ts).1 ≡ ok) h c))

  to_consumed :
      (id : String) (given : Option String) (t : ApplyTimes N L kind hash) (d : Desk N)
      (p : WorkflowProposal N)
      → Dict.get id d.proposals ≡ some p
      → blocked N L kind t.check_now p ≡ none
      → apply_workflow_proposal N L kind hash id given t d
        ≡ apply_consumed N L kind hash id p t
            (consume (consume_request N L kind hash d.held.workflow p given t) d.tokens)
            d
  unfolding apply_workflow_proposal
  to_consumed id given t d p e f = rw (e, f, apply_workflow_proposal) refl

  outcome :
      (past : List ConfirmEvent) (id : String) (given : Option String)
      (t : ApplyTimes N L kind hash) (d : Desk N)
      → d.tokens ≡ confirm_run [] past
      → Outcome past id given t d (apply_workflow_proposal N L kind hash id given t d).0
  unfolding apply_workflow_proposal
  outcome past id given t d h = elim (Option-cases (Dict.get id d.proposals)) [
    | inl e ↦ rw (e, apply_workflow_proposal) (inl (refl, refl))
    | inr (p, e) ↦ elim (Option-cases (blocked N L kind t.check_now p)) [
      | inl f ↦
          subst (λ r. Outcome past id given t d r.0) (sym (to_consumed id given t d p e f))
            (consumed_outcome past id given t d p _ e (confirmed past given t d p h f))
      | inr (x, f) ↦ rw (e, f, apply_workflow_proposal) (inl (refl, refl))
    ]
  ]

  -- A call of `setWorkflow` by the user, the radar or the environment.
  abbrev pub IsSetting : Event → Type 0
  IsSetting (sets by patch now) = Unit
  IsSetting _ = ⊥

  rejects-held :
      (id : String) (now : ℕ) (d : Desk N)
      → (reject_workflow_proposal N L kind id now d).0.held ≡ d.held
  unfolding reject_workflow_proposal reject_found
  rejects-held id now d = elim (Option-cases (Dict.get id d.proposals)) [
    | inl e ↦ rw (e, reject_workflow_proposal) refl
    | inr (p, e) ↦ elim (Bool-cases (p.status == pending)) [
      | inl f ↦ rw (e, f, reject_workflow_proposal, reject_found) refl
      | inr f ↦ rw (e, f, reject_workflow_proposal, reject_found) refl
    ]
  ]

  issues-held :
      (id : String) (t : IssueTimes N L kind hash) (d : Desk N)
      → (issue_proposal_confirmation N L kind hash id t d).0.held ≡ d.held
  unfolding issue_proposal_confirmation
  issues-held id t d = elim (Option-cases (Dict.get id d.proposals)) [
    | inl e ↦ rw (e, issue_proposal_confirmation) refl
    | inr (p, e) ↦ elim (Option-cases (blocked N L kind t.check_now p)) [
      | inl f ↦ rw (e, f, issue_proposal_confirmation) refl
      | inr (x, f) ↦ rw (e, f, issue_proposal_confirmation) refl
    ]
  ]

  -- What changes settings, if not a call by the user, the radar or the environment: a chat's call that
  -- sets harmless keys, or an application that is confirmed.
  abbrev pub IsAllowed : List ConfirmEvent → Event → Desk N → Desk N → Type 0
  IsAllowed past e before after =
      ((a : ChatCall N L kind hash) × (patch : Patch N) × (e ≡ chats a)
        × IsHarmless (is_true N) patch
        × (after.held ≡ (set_workflow N L kind patch a.set_now before.held).held))
      ⊎ ((id : String) × (given : Option String) × (t : ApplyTimes N L kind hash)
          × (p : WorkflowProposal N) × (e ≡ applies id given t)
          × (Dict.get id before.proposals ≡ some p)
          × IsConfirmed past given t before p
          × IsApplied t before after p)

  -- While one backend runs, from a desk without tokens, whatever happened to it: an event that is no
  -- call of `setWorkflow` by the user, the radar or the environment leaves the settings as they are,
  -- unless it is one of two.
  -- The chat sets keys at once, and then the settings are those of `setWorkflow` on a patch that has
  -- only keys that the chat may set, and of `paused` only the value `true`. Or a proposal is applied
  -- that is pending, in time, and confirmed with a token that an earlier request issued for this
  -- proposal, its patch and the settings that it finds under the patch's keys, less than
  -- `CONFIRM_TTL_MS` before; then the settings are those of `setWorkflow` on the patch.
  pub desk_step-consented :
      (d : Desk N) (es : List Event) (e : Event)
      → d.tokens ≡ []
      → let before = desk_run N L kind hash d es in
        let after = desk_step N L kind hash before e in
        IsSetting e
        ⊎ ((after.held ≡ before.held) ⊎ IsAllowed (history N L kind hash d es) e before after)
  unfolding desk_step workflow_proposals propose_workflow chat_set_workflow
  desk_step-consented d es (lists now) h = inr (inl refl)
  desk_step-consented d es (proposes patch session id patch_now now) h = inr (inl refl)
  desk_step-consented d es (issues id t) h =
      inr (inl (issues-held id t (desk_run N L kind hash d es)))
  desk_step-consented d es (rejects id now) h =
      inr (inl (rejects-held id now (desk_run N L kind hash d es)))
  desk_step-consented d es (sets by patch now) h = inl tt
  desk_step-consented d es (asks_tokens e) h = inr (inl refl)
  desk_step-consented d es (chats a) h =
      let before = desk_run N L kind hash d es in
      let split = chat_split N L kind hash a in
      let same = (rest-kept N L kind hash split.proposal a.session_id a.id a.patch_now a.now _).1 in
      elim (direct-kept N L kind hash split.direct a.set_now before).1 [
        | inl u ↦ inr (inl (same ∙ u))
        | inr u ↦
            inr (inr (inl (a, split.direct, refl, split-IsHarmless (is_true N) a.patch, same ∙ u)))
      ]
  desk_step-consented d es (applies id given t) h =
      let before = desk_run N L kind hash d es in
      let past = history N L kind hash d es in
      let same : before.tokens ≡ confirm_run [] past =
        desk_run-tokens N L kind hash d es ∙ ap (λ ts. confirm_run ts past) h in
      elim (outcome past id given t before same) [
        | inl u ↦ inr (inl u.0)
        | inr (p, e, c, a) ↦ inr (inr (inr (id, given, t, p, refl, e, c, a)))
      ]
