-- ===== src/Confirm.antt =====
-- packages/gateway/src/demo/confirm.ts: one-time confirmation tokens. The clock and the random
-- nonce are arguments: a method that reads the clock more than once takes one reading for each.
-- `fingerprintOf` hashes, and the store only compares what callers hash.
mod Examples
pub mod Once
pub mod Issued
pub mod Kept
pub mod Patch
use trade_gate.Prelude.{
  ℕ, ◌+◌, Bool, true, false, not, ◌||◌, Option, none, some, String, List, [], ◌∷◌, leb, ◌==◌,
  string_eq, Eq, eq_of_discrete, if◌then◌else◌,
}
use trade_gate.Dict

pub data ConfirmKind : Type 0 where
  intent workflow_proposal : ConfirmKind

abbrev pub kind_beq : ConfirmKind → ConfirmKind → Bool
kind_beq intent intent = true
kind_beq workflow_proposal workflow_proposal = true
kind_beq _ _ = false

pub record ConfirmToken : Type 0 where
  pub nonce : String
  pub kind : ConfirmKind
  pub target_id : String
  pub fingerprint : String
  pub issued_at : ℕ
  pub expires_at : ℕ

abbrev pub confirm_ttl_ms : ℕ
confirm_ttl_ms = 120_000

-- `this.tokens`
abbrev pub Tokens : Type 0
Tokens = List (String × ConfirmToken)

unfoldable pub sweep : ℕ → Tokens → Tokens
sweep now [] = []
sweep now ((k, t) ∷ tokens) =
    if leb t.expires_at now then sweep now tokens else (k, t) ∷ sweep now tokens

pub record IssueRequest : Type 0 where
  pub kind : ConfirmKind
  pub target_id : String
  pub fingerprint : String
  pub nonce : String
  pub sweep_now : ℕ
  pub issued_now : ℕ
  pub expires_now : ℕ

unfoldable pub new_token : IssueRequest → ConfirmToken
new_token r = record {
  nonce = r.nonce;
  kind = r.kind;
  target_id = r.target_id;
  fingerprint = r.fingerprint;
  issued_at = r.issued_now;
  expires_at = r.expires_now + confirm_ttl_ms;
}

unfoldable pub issue : IssueRequest → Tokens → Tokens × ConfirmToken
unfolding sweep new_token
issue r tokens = (Dict.set r.nonce (new_token r) (sweep r.sweep_now tokens), new_token r)

pub data ConfirmCode : Type 0 where
  confirm_required confirm_unknown confirm_expired confirm_mismatch : ConfirmCode

-- The messages are left out.
pub data Consumed : Type 0 where
  ok : Consumed
  refused : ConfirmCode → Consumed

pub record ConsumeRequest : Type 0 where
  pub nonce : Option String
  pub kind : ConfirmKind
  pub target_id : String
  pub fingerprint : String
  pub sweep_now : ℕ
  pub check_now : ℕ

-- The tests of `consume` on the token that stood in the map before the sweep.
unfoldable pub consume_token :
    ConsumeRequest → String → Option ConfirmToken → Tokens → Tokens × Consumed
consume_token r nonce none swept = (swept, refused confirm_unknown)
consume_token r nonce (some t) swept =
    if leb t.expires_at r.check_now
    then (Dict.remove nonce swept, refused confirm_expired)
    else if not (kind_beq t.kind r.kind) || not (t.target_id == r.target_id)
    then (swept, refused confirm_mismatch)
    else if not (t.fingerprint == r.fingerprint)
    then (swept, refused confirm_mismatch)
    else (Dict.remove nonce swept, ok)

-- `if (!nonce)` holds of the empty text too.
unfoldable pub consume_at : ConsumeRequest → String → Tokens → Tokens × Consumed
unfolding consume_token sweep
consume_at r nonce tokens =
    if nonce == ""
    then (tokens, refused confirm_required)
    else consume_token r nonce (Dict.get nonce tokens) (sweep r.sweep_now tokens)

unfoldable pub consume : ConsumeRequest → Tokens → Tokens × Consumed
unfolding consume_at
consume r tokens = elim r.nonce [
  | none ↦ (tokens, refused confirm_required)
  | some nonce ↦ consume_at r nonce tokens
]

-- What callers do to the store.
pub data ConfirmEvent : Type 0 where
  issues : IssueRequest → ConfirmEvent
  consumes : ConsumeRequest → ConfirmEvent

unfoldable pub confirm_step : Tokens → ConfirmEvent → Tokens
unfolding issue consume
confirm_step tokens (issues r) = (issue r tokens).0
confirm_step tokens (consumes r) = (consume r tokens).0

unfoldable pub confirm_run : Tokens → List ConfirmEvent → Tokens
unfolding confirm_step
confirm_run tokens [] = tokens
confirm_run tokens (e ∷ es) = confirm_run (confirm_step tokens e) es
