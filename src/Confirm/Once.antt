-- ===== src/Confirm/Once.antt =====
-- A token works once, for the object and the content that it was issued for.
use trade_gate.Prelude.{
  ℕ, ◌<◌, ◌≡◌, refl, ◌∙◌, true, false, Option, none, some, String, List, [], ◌∷◌, arith, ◌==◌,
  string_eq, Bool-cases, Option-cases, inl, inr,
}
use text.Mathlib.TextEquality.{eq_iff}
use trade_gate.Dict
use trade_gate.Confirm.{
  ConfirmKind, ConfirmToken, Tokens, sweep, consume_token, consume_at, new_token, issue, ok,
  refused, confirm_unknown, ConsumeRequest, consume, ConfirmEvent, issues, consumes, confirm_step,
  confirm_run, kind_beq,
}

-- Keys are new among the entries behind them, so a sweep cannot uncover an older entry.
pub get-sweep :
    (k : String) (now : ℕ) (tokens : Tokens)
    → Dict.get k tokens ≡ none
    → Dict.get k (sweep now tokens) ≡ none
unfolding sweep Dict.get
get-sweep k now [] h = h
get-sweep k now ((j, t) ∷ tokens) h = ground (arith, get-sweep k now tokens)

kind_beq_eq : (a b : ConfirmKind) → kind_beq a b ≡ true → a ≡ b
kind_beq_eq a b h = ground arith

module _ (r : ConsumeRequest) (tokens : Tokens) (h : (consume r tokens).1 ≡ ok) where
  accepted_token :
      (n : String)
      → r.nonce ≡ some n
      → (o : Option ConfirmToken) → Dict.get n tokens ≡ o
      → (t : ConfirmToken) × (o ≡ some t)
        × (t.kind ≡ r.kind)
        × (t.target_id ≡ r.target_id)
        × (t.fingerprint ≡ r.fingerprint)
        × (r.check_now < t.expires_at)
  unfolding consume
  accepted_token n e none g = absurd (ground arith)
  accepted_token n e (some t) g = (
    t,
    refl,
    ground arith,
    ground (arith, eq_iff t.target_id r.target_id),
    ground (arith, eq_iff t.fingerprint r.fingerprint),
    ground arith,
  )

  accepted_nonce : (o : Option String) → r.nonce ≡ o → (n : String) × (o ≡ some n)
  unfolding consume
  accepted_nonce none e = absurd (ground arith)
  accepted_nonce (some n) e = (n, refl)

  -- A token is accepted only for the kind, the object and the content that it was issued for,
  -- and before it expires.
  pub consume_sound :
      (n : String) × (t : ConfirmToken) × (r.nonce ≡ some n)
      × (Dict.get n tokens ≡ some t)
      × (t.kind ≡ r.kind)
      × (t.target_id ≡ r.target_id)
      × (t.fingerprint ≡ r.fingerprint)
      × (r.check_now < t.expires_at)
  consume_sound =
      let (n, e) = accepted_nonce r.nonce refl in
      let (t, g, k, i, f, x) = accepted_token n e (Dict.get n tokens) refl in
      (n, t, e, g, k, i, f, x)

  -- An accepted token is gone.
  pub consume_gone : (n : String) → r.nonce ≡ some n → Dict.get n (consume r tokens).0 ≡ none
  unfolding consume
  consume_gone n e = elim (Option-cases (Dict.get n tokens)) [
    | inl g ↦ absurd (ground arith)
    | inr (t, g) ↦ ground (arith, Dict.get-remove_self n (sweep r.sweep_now tokens))
  ]

-- No event issues the nonce `n` again.
abbrev pub NeverIssues : String → List ConfirmEvent → Type 0
NeverIssues n [] = Unit
NeverIssues n (issues r ∷ es) = ((r.nonce == n) ≡ false) × NeverIssues n es
NeverIssues n (consumes r ∷ es) = NeverIssues n es

consume_token-none :
    (r : ConsumeRequest) (n : String) (swept : Tokens)
    → Dict.get n swept ≡ none
    → (k : String) (o : Option ConfirmToken) → Dict.get n (consume_token r k o swept).0 ≡ none
unfolding consume_token
consume_token-none r n swept h k none = h
consume_token-none r n swept h k (some t) = ground (arith, Dict.get-remove-none n k swept h)

consume_at-none :
    (r : ConsumeRequest) (n k : String) (tokens : Tokens)
    → Dict.get n tokens ≡ none
    → Dict.get n (consume_at r k tokens).0 ≡ none
unfolding consume_at
consume_at-none r n k tokens h = elim (Bool-cases (k == "")) [
  | inl e ↦ rw e h
  | inr e ↦ rw e (
      consume_token-none r n (sweep r.sweep_now tokens) (get-sweep n r.sweep_now tokens h) k
        (Dict.get k tokens))
]

consume-none :
    (r : ConsumeRequest) (n : String) (tokens : Tokens)
    → Dict.get n tokens ≡ none
    → Dict.get n (consume r tokens).0 ≡ none
unfolding consume
consume-none r n tokens h = elim (Option-cases r.nonce) [
  | inl e ↦ rw (e, consume) h
  | inr (k, e) ↦ rw (e, consume) (consume_at-none r n k tokens h)
]

confirm_run-none :
    (n : String) (tokens : Tokens) (es : List ConfirmEvent)
    → NeverIssues n es
    → Dict.get n tokens ≡ none
    → Dict.get n (confirm_run tokens es) ≡ none
unfolding confirm_run confirm_step issue
confirm_run-none n tokens [] f h = h
confirm_run-none n tokens (issues r ∷ es) f h =
    confirm_run-none n (confirm_step tokens (issues r)) es f.1 (
      Dict.get-set_ne n r.nonce (new_token r) (sweep r.sweep_now tokens) f.0
      ∙ get-sweep n r.sweep_now tokens h)
confirm_run-none n tokens (consumes r ∷ es) f h =
    confirm_run-none n (confirm_step tokens (consumes r)) es f (consume-none r n tokens h)

-- Once a token is accepted, a later use of its nonce is refused as unknown, whatever was issued and
-- consumed between, if the nonce was not drawn again.
pub consume_once :
    (r s : ConsumeRequest) (tokens : Tokens) (es : List ConfirmEvent) (n : String)
    → (consume r tokens).1 ≡ ok
    → r.nonce ≡ some n
    → s.nonce ≡ some n
    → NeverIssues n es
    → (consume s (confirm_run (consume r tokens).0 es)).1 ≡ refused confirm_unknown
unfolding consume
consume_once r s tokens es n h e e' f =
    ground (arith, confirm_run-none n (consume r tokens).0 es f (consume_gone r tokens h n e))
