-- ===== src/Confirm/Issued.antt =====
-- Where accepted tokens come from.
use text.Mathlib.TextEquality.{eq_iff}
use trade_gate.Prelude.{
  ℕ, ◌+◌, ◌<◌, ◌≡◌, refl, ◌∙◌, sym, ◌⊎◌, Option, none, some, String, List, [], ◌∷◌, arith, leb,
  ◌==◌, string_eq, if◌then◌else◌, Bool-cases, Option-cases, inl, inr, none≢some,
}
use mathlib.Core.Logic.{⊎_elim}
use trade_gate.Dict
use trade_gate.Confirm.{
  ConfirmToken, Tokens, sweep, consume_token, consume_at, IssueRequest, new_token, issue, ok,
  ConsumeRequest, consume, ConfirmEvent, issues, consumes, confirm_step, confirm_run,
  confirm_ttl_ms,
}
use trade_gate.Confirm.Once.{get-sweep, consume_sound}

-- A request of the history made the token `t` under the nonce `k`.
abbrev pub Issued : List ConfirmEvent → String → ConfirmToken → Type 0
Issued [] k t = ⊥
Issued (issues r ∷ past) k t = ((r.nonce ≡ k) × (t ≡ new_token r)) ⊎ Issued past k t
Issued (consumes r ∷ past) k t = Issued past k t

-- With unique keys a sweep keeps the entries that have not expired, and no other.
pub get-sweep_unique :
    (k : String) (now : ℕ) (tokens : Tokens)
    → Dict.HasUniqueKeys tokens
    → Dict.get k (sweep now tokens) ≡ elim (Dict.get k tokens) [
      | none ↦ none
      | some t ↦ if leb t.expires_at now then none else some t
    ]
unfolding sweep Dict.get
get-sweep_unique k now [] u = refl
get-sweep_unique k now ((j, t) ∷ tokens) u =
    ground (arith, get-sweep_unique k now tokens u.1, eq_iff j k)

sweep-HasUniqueKeys :
    (now : ℕ) (tokens : Tokens) → Dict.HasUniqueKeys tokens → Dict.HasUniqueKeys (sweep now tokens)
unfolding sweep
sweep-HasUniqueKeys now [] u = tt
sweep-HasUniqueKeys now ((j, t) ∷ tokens) u =
    ground (arith, sweep-HasUniqueKeys now tokens u.1, get-sweep j now tokens u.0)

-- Each entry that `consume` leaves was there before.
consume_token_within :
    (r : ConsumeRequest) (n k : String) (o : Option ConfirmToken) (t : ConfirmToken)
    (swept : Tokens)
    → Dict.get k (consume_token r n o swept).0 ≡ some t
    → Dict.get k swept ≡ some t
unfolding consume_token
consume_token_within r n k none t swept h = h
consume_token_within r n k (some o) t swept h = ground (arith, Dict.get-remove-some k n t swept)

get-sweep-some :
    (k : String) (now : ℕ) (t : ConfirmToken) (tokens : Tokens)
    → Dict.HasUniqueKeys tokens
    → Dict.get k (sweep now tokens) ≡ some t
    → Dict.get k tokens ≡ some t
get-sweep-some k now t tokens u h = elim (Option-cases (Dict.get k tokens)) [
  | inl e ↦ ground (arith, get-sweep_unique k now tokens u)
  | inr (t', e) ↦ ground (arith, get-sweep_unique k now tokens u)
]

consume_at_within :
    (r : ConsumeRequest) (n k : String) (t : ConfirmToken) (tokens : Tokens)
    → Dict.HasUniqueKeys tokens
    → Dict.get k (consume_at r n tokens).0 ≡ some t
    → Dict.get k tokens ≡ some t
unfolding consume_at
consume_at_within r n k t tokens u h = elim (Bool-cases (n == "")) [
  | inl e ↦ rw e at h
  | inr e ↦
      get-sweep-some k r.sweep_now t tokens u
        (consume_token_within r n k (Dict.get n tokens) t (sweep r.sweep_now tokens) (rw e at h))
]

consume_within :
    (r : ConsumeRequest) (k : String) (t : ConfirmToken) (tokens : Tokens)
    → Dict.HasUniqueKeys tokens
    → Dict.get k (consume r tokens).0 ≡ some t
    → Dict.get k tokens ≡ some t
unfolding consume
consume_within r k t tokens u h = elim (Option-cases r.nonce) [
  | inl e ↦ rw (e, consume) at h
  | inr (n, e) ↦ consume_at_within r n k t tokens u (rw (e, consume) at h)
]

consume_token-HasUniqueKeys :
    (r : ConsumeRequest) (n : String) (o : Option ConfirmToken) (swept : Tokens)
    → Dict.HasUniqueKeys swept
    → Dict.HasUniqueKeys (consume_token r n o swept).0
unfolding consume_token
consume_token-HasUniqueKeys r n none swept u = u
consume_token-HasUniqueKeys r n (some t) swept u =
    ground (arith, Dict.remove-HasUniqueKeys n swept u)

consume-HasUniqueKeys :
    (r : ConsumeRequest) (tokens : Tokens)
    → Dict.HasUniqueKeys tokens
    → Dict.HasUniqueKeys (consume r tokens).0
unfolding consume consume_at
consume-HasUniqueKeys r tokens u = elim (Option-cases r.nonce) [
  | inl e ↦ rw (e, consume) u
  | inr (n, e) ↦
      rw (e, consume)
        (ground (
          arith,
          consume_token-HasUniqueKeys r n (Dict.get n tokens) (sweep r.sweep_now tokens),
          sweep-HasUniqueKeys r.sweep_now tokens u,
        ))
]

confirm_step-HasUniqueKeys :
    (tokens : Tokens) (e : ConfirmEvent)
    → Dict.HasUniqueKeys tokens
    → Dict.HasUniqueKeys (confirm_step tokens e)
unfolding confirm_step issue
confirm_step-HasUniqueKeys tokens (issues r) u =
    Dict.set-HasUniqueKeys r.nonce (new_token r) _ (sweep-HasUniqueKeys r.sweep_now tokens u)
confirm_step-HasUniqueKeys tokens (consumes r) u = consume-HasUniqueKeys r tokens u

confirm_step_from :
    (tokens : Tokens) (e : ConfirmEvent) (k : String) (t : ConfirmToken)
    → Dict.HasUniqueKeys tokens
    → Dict.get k (confirm_step tokens e) ≡ some t
    → (Dict.get k tokens ≡ some t) ⊎ Issued (e ∷ []) k t
unfolding confirm_step issue
confirm_step_from tokens (issues r) k t u h = elim (Bool-cases (r.nonce == k)) [
  | inl e ↦
      let same = (eq_iff r.nonce k).0 e in
      inr (
        inl (
          same,
          ground (
            arith,
            rw same at (Dict.get-set_self r.nonce (new_token r) (sweep r.sweep_now tokens)),
          ),
        ))
  | inr e ↦ inl (
      get-sweep-some k r.sweep_now t tokens u
        (sym (Dict.get-set_ne k r.nonce (new_token r) (sweep r.sweep_now tokens) e) ∙ h))
]
confirm_step_from tokens (consumes r) k t u h = inl (consume_within r k t tokens u h)

Issued-head :
    (e : ConfirmEvent) (es : List ConfirmEvent) (k : String) (t : ConfirmToken)
    → Issued (e ∷ []) k t
    → Issued (e ∷ es) k t
Issued-head (issues r) es k t (inl h) = inl h
Issued-head (issues r) es k t (inr h) = absurd h
Issued-head (consumes r) es k t h = absurd h

Issued-tail :
    (e : ConfirmEvent) (es : List ConfirmEvent) (k : String) (t : ConfirmToken)
    → Issued es k t
    → Issued (e ∷ es) k t
Issued-tail (issues r) es k t h = inr h
Issued-tail (consumes r) es k t h = h

confirm_run_from {ℓ} :
    (P : String → ConfirmToken → Type ℓ) (tokens : Tokens) (es : List ConfirmEvent)
    → Dict.HasUniqueKeys tokens
    → ((k : String) (t : ConfirmToken) → Dict.get k tokens ≡ some t → P k t)
    → ((k : String) (t : ConfirmToken) → Issued es k t → P k t)
    → (k : String) (t : ConfirmToken) → Dict.get k (confirm_run tokens es) ≡ some t
    → P k t
unfolding confirm_run
confirm_run_from P tokens [] u p q = p
confirm_run_from P tokens (e ∷ es) u p q =
    confirm_run_from P (confirm_step tokens e) es (confirm_step-HasUniqueKeys tokens e u)
      (λ k t h.
        ⊎_elim (p k t) (λ i. q k t (Issued-head e es k t i)) (confirm_step_from tokens e k t u h))
      (λ k t i. q k t (Issued-tail e es k t i))

get_nil : (k : String) → Dict.get {V = ConfirmToken} k [] ≡ none
unfolding Dict.get
get_nil k = refl

abbrev pub Made : List ConfirmEvent → IssueRequest → Type 0
Made [] q = ⊥
Made (issues r ∷ es) q = (r ≡ q) ⊎ Made es q
Made (consumes r ∷ es) q = Made es q

Issued-Made :
    (es : List ConfirmEvent) (k : String) (t : ConfirmToken)
    → Issued es k t
    → (q : IssueRequest) × Made es q × (q.nonce ≡ k) × (t ≡ new_token q)
Issued-Made [] k t i = elim i [ ]
Issued-Made (issues r ∷ es) k t (inl (e, h)) = (r, inl refl, e, h)
Issued-Made (issues r ∷ es) k t (inr i) =
    let (q, m, e, h) = Issued-Made es k t i in (q, inr m, e, h)
Issued-Made (consumes r ∷ es) k t i = Issued-Made es k t i

-- From an empty store, a token is accepted only if the history holds a request that issued it:
-- under this nonce, for this kind, object and content, and less than `CONFIRM_TTL_MS` before the
-- check.
pub consume-Made :
    (es : List ConfirmEvent) (r : ConsumeRequest)
    → (consume r (confirm_run [] es)).1 ≡ ok
    → (q : IssueRequest) × Made es q
      × (r.nonce ≡ some q.nonce)
      × (q.kind ≡ r.kind)
      × (q.target_id ≡ r.target_id)
      × (q.fingerprint ≡ r.fingerprint)
      × (r.check_now < q.expires_now + confirm_ttl_ms)
unfolding new_token
consume-Made es r h =
    let (n, t, e, g, k, i, f, x) = consume_sound r (confirm_run [] es) h in
    let made =
      confirm_run_from (Issued es) [] es tt (λ k t h. absurd (none≢some t (sym (get_nil k) ∙ h)))
        (λ k t i. i) n t g in
    let (q, m, d, new) = Issued-Made es n t made in
    (q, m, ground arith, ground arith, ground arith, ground arith, ground arith)
