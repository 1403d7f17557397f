-- ===== src/Runtime/Approval.antt =====
-- Approving and rejecting intents (runtime.ts): `issueIntentConfirmation`, `approveIntent` up to what
-- it runs, and `rejectIntent`. The hash of a fingerprint's content is an argument.
pub mod Laws
pub mod Rejected
pub mod Over
use trade_gate.Prelude.{
  ℕ, ◌+◌, Bool, true, false, not, Option, none, some, String, List, [], ◌∷◌, filter, contains, ◌==◌,
  string_eq, if◌then◌else◌,
}
use trade_gate.Dict
use trade_gate.Graph.Types.{ThreadStatus, canceled}
use trade_gate.Threads.Types.{Direction, EntryType, Backend, StrategyThread}
use trade_gate.Threads.Opening.{is_open}
use trade_gate.Confirm.{
  Tokens, ConfirmToken, ConfirmCode, Consumed, ok, refused, intent, IssueRequest, ConsumeRequest,
  issue, consume,
}
use trade_gate.Runtime.World.{
  World, Others, DemoIntent, IntentKind, IntentStatus, pending_approval, rejected, intent_status_eq,
  save_thread, save_intent, given_text,
}

-- What the fingerprint covers.
pub record IntentContent : Type 0 where
  pub id : String
  pub kind : IntentKind
  pub symbol : String
  pub direction : Direction
  pub quantity : String
  pub entry : EntryType
  pub limit_price : Option String
  pub stop_price : Option String
  pub take_profit_price : Option String
  pub status : IntentStatus
  pub backend : Backend

unfoldable pub content_of : DemoIntent → IntentContent
content_of i = record {
  id = i.id;
  kind = i.kind;
  symbol = i.symbol;
  direction = i.direction;
  quantity = i.quantity;
  entry = i.entry;
  limit_price = i.limit_price;
  stop_price = i.stop_price;
  take_profit_price = i.take_profit_price;
  status = i.status;
  backend = i.backend;
}

pub data IntentError : Type 0 where
  in_progress intent_missing thread_missing halt_on paused_on needs_human : IntentError
  intent_is : IntentStatus → IntentError
  thread_is : ThreadStatus → IntentError
  token_refused : ConfirmCode → IntentError

pub data Answer {ℓ} (A : Type ℓ) : Type ℓ where
  gives : A → Answer A
  fails : IntentError → Answer A

-- Who approves.
pub data By : Type 0 where
  human agent_by : By

-- The intent that the store has, where it waits for approval.
unfoldable pub waiting : Option DemoIntent → Answer DemoIntent
waiting none = fails intent_missing
waiting (some i) = if i.status == pending_approval then gives i else fails (intent_is i.status)

unfoldable pub waiting_intent : String → World → Answer DemoIntent
unfolding waiting
waiting_intent id w = waiting (Dict.get id w.intents)

-- `if (id) store.thread(id)`
unfoldable pub thread_of : DemoIntent → World → Option StrategyThread
thread_of i w = elim (given_text i.thread_id) [ none ↦ none | some id ↦ Dict.get id w.threads ]

-- `intent.episode_id ? store.episode(...) : null`, by its id.
abbrev pub episode_of : DemoIntent → Option String
episode_of i = given_text (some i.episode_id)

pub record RejectTimes : Type 0 where
  pub ended : ℕ
  pub updated : ℕ

-- What the rejection writes.
unfoldable pub write_rejection : DemoIntent → RejectTimes → World → World × DemoIntent
unfolding thread_of
write_rejection i c w =
    let r : DemoIntent = record i { status = rejected; error = some "用户拒绝" } in
    let told = save_intent (episode_of i) r w in
    (
      elim (thread_of r told) [
        | none ↦ told
        | some t ↦
            save_thread
              (record t {
                status = canceled;
                closed_at = some c.ended;
                close_reason = some "用户拒绝了提议";
                version = t.version + 1;
                updated_at = c.updated;
              })
              told
      ],
      r,
    )

unfoldable pub reject_intent : String → RejectTimes → World → World × Answer DemoIntent
unfolding waiting_intent write_rejection
reject_intent id c w = elim (waiting_intent id w) [
  | fails e ↦ (w, fails e)
  | gives i ↦ let (after, r) = write_rejection i c w in (after, gives r)
]

module _ (hash : IntentContent → String) where
  unfoldable pub intent_fingerprint : DemoIntent → String
  unfolding content_of
  intent_fingerprint i = hash (content_of i)

  pub record IntentTimes : Type 0 where
    pub nonce : String
    pub sweep_now : ℕ
    pub issued_now : ℕ
    pub expires_now : ℕ

  unfoldable pub intent_request : DemoIntent → IntentTimes → IssueRequest
  unfolding intent_fingerprint
  intent_request i c = record {
    kind = intent;
    target_id = i.id;
    fingerprint = intent_fingerprint i;
    nonce = c.nonce;
    sweep_now = c.sweep_now;
    issued_now = c.issued_now;
    expires_now = c.expires_now;
  }

  unfoldable pub issue_intent_confirmation :
      String → IntentTimes → World → World × Answer (ConfirmToken × DemoIntent)
  unfolding waiting_intent intent_request
  issue_intent_confirmation id c w = elim (waiting_intent id w) [
    | fails e ↦ (w, fails e)
    | gives i ↦
        let (tokens, token) = issue (intent_request i c) w.tokens in
        (record w { tokens = tokens }, gives (token, i))
  ]

  pub record ApproveTimes : Type 0 where
    pub sweep_now : ℕ
    pub check_now : ℕ

  unfoldable pub approval_request : DemoIntent → Option String → ApproveTimes → ConsumeRequest
  unfolding intent_fingerprint
  approval_request i given c = record {
    nonce = given;
    kind = intent;
    target_id = i.id;
    fingerprint = intent_fingerprint i;
    sweep_now = c.sweep_now;
    check_now = c.check_now;
  }

  -- The answer of the store of tokens.
  unfoldable pub token_answer : Tokens × Consumed → World → World × Option IntentError
  token_answer (tokens, ok) w = (record w { tokens = tokens }, none)
  token_answer (tokens, refused c) w = (record w { tokens = tokens }, some (token_refused c))

  -- The permission: a person's token, or the setting that lets the chat approve.
  unfoldable pub permit :
      By → DemoIntent → Option String → ApproveTimes → World → World × Option IntentError
  unfolding token_answer approval_request
  permit agent_by i given c w = (w, if w.chat_requires_approval then some needs_human else none)
  permit human i given c w = token_answer (consume (approval_request i given c) w.tokens) w

  -- The tests on the thread, and the stops.
  unfoldable pub thread_answer :
      DemoIntent → Option StrategyThread → World → Answer (StrategyThread × DemoIntent)
  thread_answer i none w = fails thread_missing
  thread_answer i (some t) w =
      if not (is_open t)
      then fails (thread_is t.status)
      else if w.halted
      then fails halt_on
      else if w.paused
      then fails paused_on
      else gives (t, i)

  unfoldable pub permitted :
      DemoIntent → World × Option IntentError → World × Answer (StrategyThread × DemoIntent)
  unfolding thread_answer thread_of
  permitted i (w, some e) = (w, fails e)
  permitted i (w, none) = (w, thread_answer i (thread_of i w) w)

  -- The intent is being approved until what it runs is over; an error ends that at once.
  unfoldable pub begins :
      String
      → World × Answer (StrategyThread × DemoIntent)
      → World × Answer (StrategyThread × DemoIntent)
  begins id (w, fails e) = (w, fails e)
  begins id (w, gives x) = (record w { approving = id ∷ w.approving }, gives x)

  -- `approveIntent` up to the opening or closing that it runs.
  unfoldable pub approve_intent :
      By
      → String
      → Option String
      → ApproveTimes
      → World
      → World × Answer (StrategyThread × DemoIntent)
  unfolding waiting_intent permit permitted begins
  approve_intent by id given c w =
      if contains id w.approving then (w, fails in_progress) else elim (waiting_intent id w) [
        | fails e ↦ (w, fails e)
        | gives i ↦ begins id (permitted i (permit by i given c w))
      ]

-- `finally { approving.delete(id) }`
unfoldable pub end_approval : String → World → World
end_approval id w = record w { approving = filter (λ k. not (k == id)) w.approving }

-- The handlers of intents, in any order, between what the others do.
module _ (hash : IntentContent → String) where
  pub data IntentEvent : Type 0 where
    rejects : String → RejectTimes → IntentEvent
    issues : String → IntentTimes hash → IntentEvent
    approves : By → String → Option String → ApproveTimes hash → IntentEvent
    ends : String → IntentEvent
    runs : Others → IntentEvent

  unfoldable pub intent_step : World → IntentEvent → World
  unfolding reject_intent issue_intent_confirmation approve_intent end_approval
  intent_step w (rejects id c) = (reject_intent id c w).0
  intent_step w (issues id c) = (issue_intent_confirmation hash id c w).0
  intent_step w (approves by id given c) = (approve_intent hash by id given c w).0
  intent_step w (ends id) = end_approval id w
  intent_step w (runs others) = others w

  unfoldable pub intent_run : World → List IntentEvent → World
  unfolding intent_step
  intent_run w [] = w
  intent_run w (e ∷ es) = intent_run (intent_step w e) es
