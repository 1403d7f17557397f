-- ===== src/Confirm/Kept.antt =====
-- What a refusal leaves.
use text.Mathlib.TextEquality.{eq_iff}
use trade_gate.Prelude.{
  ◌<◌, ◌≡◌, ap, ◌∙◌, true, Option, none, some, String, arith, ◌==◌, string_eq, Bool-cases,
  Option-cases, inl, inr,
}
use trade_gate.Dict
use trade_gate.Confirm.{
  ConfirmToken, Tokens, sweep, consume_token, consume_at, refused, ConfirmCode, ConsumeRequest,
  consume,
}
use trade_gate.Confirm.Issued.{get-sweep_unique}

consume_token_keeps :
    (r : ConsumeRequest) (n k : String) (c : ConfirmCode) (t : ConfirmToken) (swept : Tokens)
    (o : Option ConfirmToken)
    → ((n == k) ≡ true → o ≡ some t)
    → (consume_token r n o swept).1 ≡ refused c
    → Dict.get k swept ≡ some t
    → r.check_now < t.expires_at
    → Dict.get k (consume_token r n o swept).0 ≡ some t
unfolding consume_token
consume_token_keeps r n k c t swept none same h g b = g
consume_token_keeps r n k c t swept (some o) same h g b =
    ground (arith, Dict.get-remove_ne k n swept)

consume_at_keeps :
    (r : ConsumeRequest) (n k : String) (c : ConfirmCode) (t : ConfirmToken) (tokens : Tokens)
    → Dict.HasUniqueKeys tokens
    → (consume_at r n tokens).1 ≡ refused c
    → Dict.get k tokens ≡ some t
    → r.sweep_now < t.expires_at
    → r.check_now < t.expires_at
    → Dict.get k (consume_at r n tokens).0 ≡ some t
unfolding consume_at
consume_at_keeps r n k c t tokens u h g a b = elim (Bool-cases (n == "")) [
  | inl e ↦ rw e g
  | inr e ↦ rw e (
      consume_token_keeps r n k c t (sweep r.sweep_now tokens) (Dict.get n tokens)
        (λ same. ap (λ j. Dict.get j tokens) ((eq_iff n k).0 same) ∙ g) (rw e at h)
        (ground (arith, get-sweep_unique k r.sweep_now tokens u)) b)
]

-- In a store with unique keys, a refusal takes no token that is still good at both readings of the
-- clock.
pub consume_keeps :
    (r : ConsumeRequest) (c : ConfirmCode) (tokens : Tokens) (k : String) (t : ConfirmToken)
    → Dict.HasUniqueKeys tokens
    → (consume r tokens).1 ≡ refused c
    → Dict.get k tokens ≡ some t
    → r.sweep_now < t.expires_at
    → r.check_now < t.expires_at
    → Dict.get k (consume r tokens).0 ≡ some t
unfolding consume
consume_keeps r c tokens k t u h g a b = elim (Option-cases r.nonce) [
  | inl e ↦ rw (e, consume) g
  | inr (n, e) ↦ rw (e, consume) (consume_at_keeps r n k c t tokens u (rw (e, consume) at h) g a b)
]
