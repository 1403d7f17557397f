-- ===== src/Runtime/Proposals.antt =====
-- The proposals of settings (confirm.ts, runtime.ts): a chat proposes, the user confirms. The clock,
-- the drawn ids and nonces and the hash of a fingerprint's content are arguments.
pub mod Final
mod Examples
pub mod Consent
pub mod History
use trade_gate.Prelude.{
  ℕ, ◌+◌, Bool, true, false, not, ◌&&◌, ◌||◌, Option, none, some, String, List, [], ◌∷◌, ◌++◌, map,
  leb, take, ◌==◌, string_eq, nat_eq, Eq, eq_of_discrete, if◌then◌else◌, length,
}
use trade_gate.Dict
use trade_gate.Numbers.{Numbers}
use trade_gate.Threads.Types.{Backend}
use trade_gate.Workflow.Values.{Language, Value, boolean}
use trade_gate.Workflow.Types.{Workflow}
use trade_gate.Workflow.Fields.{Patch, Patched}
use trade_gate.Workflow.Patch.{apply_workflow_patch}
use trade_gate.Confirm.{
  Tokens, ConfirmToken, ConfirmCode, Consumed, ok, refused, workflow_proposal, ConsumeRequest,
  IssueRequest, consume, issue, ConfirmEvent, confirm_step,
}
use trade_gate.Confirm.Patch.{Split, split_workflow_patch}
use trade_gate.Runtime.Settings.{Setting, Held, SetResult, setting_of, set_workflow}

pub data ProposalStatus : Type 0 where
  pending applied rejected expired : ProposalStatus

unfoldable pub ProposalStatus-discrete : Discrete ProposalStatus
ProposalStatus-discrete = hlevel

instance abbrev pub status_eq : Eq ProposalStatus
status_eq = eq_of_discrete ProposalStatus-discrete

abbrev pub proposal_ttl_ms : ℕ
proposal_ttl_ms = 1_800_000

-- The errors that the methods throw; a refused token carries its code.
pub data ProposalError : Type 0 where
  not_found : ProposalError
  not_pending : ProposalStatus → ProposalError
  token_refused : ConfirmCode → ProposalError

pub data Reply (A : Type 0) : Type 0 where
  returns : A → Reply A
  throws : ProposalError → Reply A

-- `via` is always `chat`.
module _ (N : Numbers) where
  pub record WorkflowProposal : Type 0 where
    pub id : String
    pub created_at : ℕ
    pub expires_at : ℕ
    pub status : ProposalStatus
    pub session_id : Option String
    pub patch : Patch N
    pub before : List (String × Setting)
    pub after : List (String × Setting)
    pub errors : List String
    pub resolved_at : Option ℕ

  -- `this.proposals`, the store of tokens and the settings.
  pub record Desk : Type 0 where
    pub proposals : List (String × WorkflowProposal)
    pub tokens : Tokens
    pub held : Held N

  abbrev pub put : WorkflowProposal → Desk → Desk
  put p d = record d { proposals = Dict.set p.id p d.proposals }

  -- `value === true`
  abbrev pub is_true : Value N → Bool
  is_true (boolean b) = b
  is_true _ = false

  -- `Object.fromEntries(keys.map((k) => [k, workflow[k] ?? null]))`
  unfoldable pub current_of : Workflow N → Patch N → List (String × Setting)
  unfolding setting_of
  current_of w patch = map (λ e. (e.0, setting_of N w e.0)) patch

  unfoldable pub expire : ℕ → WorkflowProposal → WorkflowProposal
  expire now p =
      if p.status == pending && leb p.expires_at now
      then record p { status = expired; resolved_at = some now }
      else p

  unfoldable pub expire_all :
      ℕ → List (String × WorkflowProposal) → List (String × WorkflowProposal)
  unfolding expire
  expire_all now [] = []
  expire_all now ((k, p) ∷ ps) = (k, expire now p) ∷ expire_all now ps

  -- `.sort((a, b) => b.created_at - a.created_at)`, which keeps the order of equal times.
  abbrev insert_newest : WorkflowProposal → List WorkflowProposal → List WorkflowProposal
  insert_newest p [] = p ∷ []
  insert_newest p (q ∷ qs) =
      if leb q.created_at p.created_at then p ∷ q ∷ qs else q ∷ insert_newest p qs

  abbrev newest_first : List WorkflowProposal → List WorkflowProposal
  newest_first [] = []
  newest_first (p ∷ ps) = insert_newest p (newest_first ps)

  -- The newest fifty are returned.
  unfoldable pub workflow_proposals : ℕ → Desk → Desk × List WorkflowProposal
  unfolding expire_all
  workflow_proposals now d =
      let kept = expire_all now d.proposals in
      (record d { proposals = kept }, take 50 (newest_first (Dict.values kept)))

  module _ (L : Language N) (kind : Backend) where
    -- What a proposal starts with; `now` is read once by the method, and once by the patch.
    unfoldable pub new_proposal :
        Workflow N → Patch N → Option String → String → ℕ → ℕ → WorkflowProposal
    unfolding current_of
    new_proposal w patch session id patch_now now =
        let preview : Patched N = apply_workflow_patch N L w patch patch_now in
        let is_bad = not (length preview.errors == 0) in
        record {
          id = id;
          created_at = now;
          expires_at = now + proposal_ttl_ms;
          status = if is_bad then rejected else pending;
          session_id = session;
          patch = patch;
          before = current_of w patch;
          after = current_of preview.next patch;
          errors = preview.errors;
          resolved_at = if is_bad then some now else none;
        }

    unfoldable pub propose_workflow :
        Patch N → Option String → String → ℕ → ℕ → Desk → Desk × WorkflowProposal
    unfolding new_proposal
    propose_workflow patch session id patch_now now d =
        let p = new_proposal d.held.workflow patch session id patch_now now in (put p d, p)

    -- `rejectWorkflowProposal` on the proposal that it finds.
    unfoldable pub reject_found :
        String → ℕ → Desk → WorkflowProposal → Desk × Reply WorkflowProposal
    reject_found id now d p =
        let q : WorkflowProposal = record p { status = rejected; resolved_at = some now } in
        if p.status == pending
        then (record d { proposals = Dict.set id q d.proposals }, returns q)
        else (d, returns p)

    unfoldable pub reject_workflow_proposal : String → ℕ → Desk → Desk × Reply WorkflowProposal
    unfolding reject_found
    reject_workflow_proposal id now d = elim (Dict.get id d.proposals) [
      | none ↦ (d, throws not_found)
      | some p ↦ reject_found id now d p
    ]

    -- What stands in the way of a confirmation; a pending proposal whose time is over is expired.
    unfoldable pub blocked : ℕ → WorkflowProposal → Option ProposalError
    blocked now p =
        if not (p.status == pending) || leb p.expires_at now
        then some (not_pending (if p.status == pending then expired else p.status))
        else none

    -- `fingerprintOf` of the content.
    module _ (hash : String → Patch N → List (String × Setting) → String) where
      unfoldable pub proposal_fingerprint : Workflow N → WorkflowProposal → String
      unfolding current_of
      proposal_fingerprint w p = hash p.id p.patch (current_of w p.patch)

      pub record IssueTimes : Type 0 where
        pub nonce : String
        pub check_now : ℕ
        pub sweep_now : ℕ
        pub issued_now : ℕ
        pub expires_now : ℕ

      unfoldable pub issue_request : Workflow N → WorkflowProposal → IssueTimes → IssueRequest
      unfolding proposal_fingerprint
      issue_request w p t = record {
        kind = workflow_proposal;
        target_id = p.id;
        fingerprint = proposal_fingerprint w p;
        nonce = t.nonce;
        sweep_now = t.sweep_now;
        issued_now = t.issued_now;
        expires_now = t.expires_now;
      }

      unfoldable pub issue_proposal_confirmation :
          String → IssueTimes → Desk → Desk × Reply (ConfirmToken × WorkflowProposal)
      unfolding issue_request blocked
      issue_proposal_confirmation id t d = elim (Dict.get id d.proposals) [
        | none ↦ (d, throws not_found)
        | some p ↦ elim (blocked t.check_now p) [
          | some e ↦ (d, throws e)
          | none ↦
              let (tokens, token) = issue (issue_request d.held.workflow p t) d.tokens in
              (record d { tokens = tokens }, returns (token, p))
        ]
      ]

      pub record ApplyTimes : Type 0 where
        pub check_now : ℕ
        pub sweep_now : ℕ
        pub token_now : ℕ
        pub patch_now : ℕ
        pub resolved_now : ℕ

      unfoldable pub consume_request :
          Workflow N → WorkflowProposal → Option String → ApplyTimes → ConsumeRequest
      unfolding proposal_fingerprint
      consume_request w p nonce t = record {
        nonce = nonce;
        kind = workflow_proposal;
        target_id = p.id;
        fingerprint = proposal_fingerprint w p;
        sweep_now = t.sweep_now;
        check_now = t.token_now;
      }

      pub record Applied : Type 0 where
        pub proposal : WorkflowProposal
        pub workflow : Workflow N
        pub errors : List String

      -- From `setWorkflow` on.
      unfoldable pub apply_confirmed :
          String → WorkflowProposal → ApplyTimes → Tokens → Desk → Desk × Reply Applied
      apply_confirmed id p t tokens d =
          let r : SetResult N = set_workflow N L kind p.patch t.patch_now d.held in
          let q : WorkflowProposal = record p {
            status = if not (length r.errors == 0) then rejected else applied;
            errors = r.errors;
            resolved_at = some t.resolved_now;
          } in
          (
            record { proposals = Dict.set id q d.proposals; tokens = tokens; held = r.held },
            returns (record { proposal = q; workflow = r.held.workflow; errors = r.errors }),
          )

      -- From `consume` on.
      unfoldable pub apply_consumed :
          String → WorkflowProposal → ApplyTimes → Tokens × Consumed → Desk → Desk × Reply Applied
      unfolding apply_confirmed
      apply_consumed id p t (tokens, refused c) d =
          (record d { tokens = tokens }, throws (token_refused c))
      apply_consumed id p t (tokens, ok) d = apply_confirmed id p t tokens d

      unfoldable pub apply_workflow_proposal :
          String → Option String → ApplyTimes → Desk → Desk × Reply Applied
      unfolding apply_consumed consume_request blocked
      apply_workflow_proposal id nonce t d = elim (Dict.get id d.proposals) [
        | none ↦ (d, throws not_found)
        | some p ↦ elim (blocked t.check_now p) [
          | some e ↦ (d, throws e)
          | none ↦
              apply_consumed id p t (consume (consume_request d.held.workflow p nonce t) d.tokens) d
        ]
      ]

      -- Who sets settings without a proposal, while one backend runs: the user (the settings, a pause
      -- and its end), the radar, which applies a screening, and the environment at the start.
      pub data Setter : Type 0 where
        by_user by_radar by_environment : Setter

      -- The chat's `set_workflow`: what it may set is set, and what it may propose is proposed.
      unfoldable pub set_direct : Patch N → ℕ → Desk → Desk
      set_direct [] now d = d
      set_direct (e ∷ patch) now d = record d {
        held = (set_workflow N L kind (e ∷ patch) now d.held).held;
      }

      unfoldable pub propose_rest : Patch N → Option String → String → ℕ → ℕ → Desk → Desk
      unfolding propose_workflow
      propose_rest [] session id patch_now now d = d
      propose_rest (e ∷ patch) session id patch_now now d =
          (propose_workflow (e ∷ patch) session id patch_now now d).0

      pub record ChatCall : Type 0 where
        pub patch : Option (Patch N)
        pub session_id : Option String
        pub id : String
        pub set_now : ℕ
        pub patch_now : ℕ
        pub now : ℕ

      abbrev pub chat_split : ChatCall → Split (Value N)
      chat_split a = split_workflow_patch is_true a.patch

      unfoldable pub chat_set_workflow : ChatCall → Desk → Desk
      unfolding set_direct propose_rest
      chat_set_workflow a d =
          propose_rest (chat_split a).proposal a.session_id a.id a.patch_now a.now
            (set_direct (chat_split a).direct a.set_now d)

      -- What is called in any order: the methods, the other callers of `setWorkflow`, and the requests
      -- that the confirmation of intents makes of the same store of tokens.
      pub data DeskEvent : Type 0 where
        lists : ℕ → DeskEvent
        proposes : Patch N → Option String → String → ℕ → ℕ → DeskEvent
        issues : String → IssueTimes → DeskEvent
        applies : String → Option String → ApplyTimes → DeskEvent
        rejects : String → ℕ → DeskEvent
        sets : Setter → Patch N → ℕ → DeskEvent
        chats : ChatCall → DeskEvent
        asks_tokens : ConfirmEvent → DeskEvent

      unfoldable pub desk_step : Desk → DeskEvent → Desk
      unfolding workflow_proposals propose_workflow issue_proposal_confirmation
          apply_workflow_proposal reject_workflow_proposal chat_set_workflow
      desk_step d (lists now) = (workflow_proposals now d).0
      desk_step d (proposes patch session id patch_now now) =
          (propose_workflow patch session id patch_now now d).0
      desk_step d (issues id t) = (issue_proposal_confirmation id t d).0
      desk_step d (applies id nonce t) = (apply_workflow_proposal id nonce t d).0
      desk_step d (rejects id now) = (reject_workflow_proposal id now d).0
      desk_step d (sets by patch now) = record d {
        held = (set_workflow N L kind patch now d.held).held;
      }
      desk_step d (chats a) = chat_set_workflow a d
      desk_step d (asks_tokens e) = record d { tokens = confirm_step d.tokens e }

      unfoldable pub desk_run : Desk → List DeskEvent → Desk
      unfolding desk_step
      desk_run d [] = d
      desk_run d (e ∷ es) = desk_run (desk_step d e) es
