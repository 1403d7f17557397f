-- ===== src/Transitions/Laws.antt =====
-- What the tables and the helpers promise: terminal states are left by no event, a pair of states is
-- joined exactly when an event leads from one to the other, and every history ends.
use trade_gate.Prelude.{
  ℕ, ◌+◌, ◌≤◌, ◌<◌, ◌≡◌, refl, sym, subst, ap, ◌∙◌, ◌↔◌, inl, inr, Bool, true, false, not, ◌&&◌,
  ◌||◌, Option, none, some, String, List, [], ◌∷◌, arith, ltb, ◌==◌, string_eq, any, all, find,
  find-all, contains, length, Bool-cases, Option-cases, none≢some, both, if◌then◌else◌, beq_refl,
}
use trade_gate.Transitions.Types.{
  Transition, MachineName, attempt_result, authorization_status, exchange_order_status,
  intent_status,
}
use trade_gate.Transitions.Tables.{table}
use trade_gate.Transitions.Machine.{joins, fires, can_transition, target, next_state, is_terminal}

abbrev leaves_open : MachineName → Transition → Bool
leaves_open m e = not (contains e.from (table m).terminal)

tables_leave_open : (m : MachineName) → all (leaves_open m) (table m).transitions ≡ true
unfolding table
tables_leave_open attempt_result = refl
tables_leave_open authorization_status = refl
tables_leave_open exchange_order_status = refl
tables_leave_open intent_status = refl

-- No event leads out of a terminal state.
pub next_state-terminal :
    (m : MachineName) (s event : String) → is_terminal m s ≡ true → next_state m s event ≡ none
unfolding next_state is_terminal
next_state-terminal m s event h = elim (Option-cases (find (fires s event) (table m).transitions)) [
  | inl e ↦ ap target e
  | inr (x, e) ↦
      let (p, q) =
        find-all (fires s event) (leaves_open m) (table m).transitions x (tables_leave_open m) e in
      let same = (string_eq.beq_iff x.from s).0 (both (x.from == s) (x.event == event) p).0 in
      absurd (ground (arith, ap (λ j. contains j (table m).terminal) same))
]

-- Each pair of a state and an event has one row.
abbrev has_unique_rows : List Transition → Bool
has_unique_rows [] = true
has_unique_rows (e ∷ es) = not (any (fires e.from e.event) es) && has_unique_rows es

tables_unique : (m : MachineName) → has_unique_rows (table m).transitions ≡ true
unfolding table
tables_unique attempt_result = refl
tables_unique authorization_status = refl
tables_unique exchange_order_status = refl
tables_unique intent_status = refl

find-any :
    (a event : String) (es : List Transition) (x : Transition)
    → find (fires a event) es ≡ some x
    → (any (fires a event) es ≡ true) × (any (joins a x.to) es ≡ true) × (fires a event x ≡ true)
find-any a event [] x h = absurd (none≢some x h)
find-any a event (e ∷ es) x h = ground (arith, find-any a event es x, beq_refl e.to)

-- A row that stands alone in front of `es` does not hide what is found in `es`.
find_behind :
    (a event : String) (e x : Transition) (es : List Transition)
    → any (fires e.from e.event) es ≡ false
    → find (fires a event) es ≡ some x
    → fires a event e ≡ false
find_behind a event e x es u f = elim (Bool-cases (fires a event e)) [
  | inl h ↦
      let (p, q) = both (e.from == a) (e.event == event) h in
      let same : any (fires e.from e.event) es ≡ any (fires a event) es =
        ap (λ j. any (fires j e.event) es) ((string_eq.beq_iff e.from a).0 p)
        ∙ ap (λ j. any (fires a j) es) ((string_eq.beq_iff e.event event).0 q) in
      absurd (ground (arith, same, find-any a event es x f))
  | inr h ↦ h
]

abbrev Leads : String → String → List Transition → Type 0
Leads a b es = (event : String) × (target (find (fires a event) es) ≡ some b)

Leads-behind :
    (a b : String) (e : Transition) (es : List Transition)
    → any (fires e.from e.event) es ≡ false
    → Leads a b es
    → Leads a b (e ∷ es)
Leads-behind a b e es u (event, h) = elim (Option-cases (find (fires a event) es)) [
  | inl f ↦ absurd (none≢some b (sym (ap target f) ∙ h))
  | inr (x, f) ↦ (event, ground (arith, find_behind a event e x es u f, h))
]

joins-Leads :
    (a b : String) (es : List Transition)
    → has_unique_rows es ≡ true
    → any (joins a b) es ≡ true
    → Leads a b es
joins-Leads a b [] u h = absurd (ground arith)
joins-Leads a b (e ∷ es) u h =
    let (alone, rest) = both (not (any (fires e.from e.event) es)) (has_unique_rows es) u in
    elim (Bool-cases (joins a b e)) [
      | inl j ↦ (e.event, ground (arith, beq_refl e.event, string_eq.beq_iff e.to b))
      | inr n ↦ Leads-behind a b e es (ground arith) (joins-Leads a b es rest (ground arith))
    ]

-- The row behind a step.
abbrev IsRow : List Transition → String → String → String → Transition → Type 0
IsRow es a event b x = (find (fires a event) es ≡ some x) × (x.from ≡ a) × (x.to ≡ b)

target-IsRow :
    (es : List Transition) (a event b : String)
    → target (find (fires a event) es) ≡ some b
    → (x : Transition) × IsRow es a event b x
target-IsRow es a event b h = elim (Option-cases (find (fires a event) es)) [
  | inl f ↦ absurd (none≢some b (sym (ap target f) ∙ h))
  | inr (x, f) ↦
      let found : some x.to ≡ some b = sym (ap target f) ∙ h in
      let p = both (x.from == a) (x.event == event) (find-any a event es x f).2 in
      (x, (f, (string_eq.beq_iff x.from a).0 p.0, ground arith))
]

-- The table joins two states exactly when some event leads from the first to the second.
pub can_transition_iff :
    (m : MachineName) (a b : String)
    → (can_transition m a b ≡ true) ↔ ((event : String) × (next_state m a event ≡ some b))
unfolding can_transition next_state
can_transition_iff m a b = (
  joins-Leads a b (table m).transitions (tables_unique m),
  λ (event, h).
      let (x, (f, p, q)) = target-IsRow (table m).transitions a event b h in
      subst (λ j. any (joins a j) (table m).transitions ≡ true) q
        (find-any a event (table m).transitions x f).1,
)

-- The ranks rise along every row.
unfoldable rank : String → ℕ
rank s =
    if s == "proposed" || s == "pending" || s == "active" || s == "new"
    then 0
    else if s == "awaiting_approval" || s == "unknown" || s == "partially_filled"
    then 1
    else if s == "authorized"
    then 2
    else if s == "dispatching"
    then 3
    else if s == "execution_unknown"
    then 4
    else if s == "executing"
    then 5
    else 6

abbrev rises : Transition → Bool
rises e = ltb (rank e.from) (rank e.to)

tables_rise : (m : MachineName) → all rises (table m).transitions ≡ true
unfolding table rank
tables_rise attempt_result = refl
tables_rise authorization_status = refl
tables_rise exchange_order_status = refl
tables_rise intent_status = refl

-- The state after a list of events, if each of them is allowed.
abbrev pub state_after : MachineName → Option String → List String → Option String
state_after m s [] = s
state_after m none (event ∷ events) = none
state_after m (some s) (event ∷ events) = state_after m (next_state m s event) events

next_state-rank :
    (m : MachineName) (s event u : String) → next_state m s event ≡ some u → rank s < rank u
unfolding next_state
next_state-rank m s event u h =
    let (x, (f, p, q)) = target-IsRow (table m).transitions s event u h in
    ground (
      arith,
      find-all (fires s event) rises (table m).transitions x (tables_rise m) f,
      ap rank p,
      ap rank q,
    )

rank_bound : (s : String) → rank s ≤ 6
unfolding rank
rank_bound s = ground arith

state_after-stuck : (m : MachineName) (events : List String) → state_after m none events ≡ none
state_after-stuck m [] = refl
state_after-stuck m (event ∷ events) = refl

state_after-rank :
    (m : MachineName) (s u : String) (events : List String)
    → state_after m (some s) events ≡ some u
    → rank s + length events ≤ rank u
state_after-rank m s u [] h = ground arith
state_after-rank m s u (event ∷ events) h = elim (Option-cases (next_state m s event)) [
  | inl e ↦ absurd (
      none≢some u (sym (state_after-stuck m events) ∙ sym (ap (λ o. state_after m o events) e) ∙ h))
  | inr (v, e) ↦ omega (
    arith,
    next_state-rank m s event v e,
    state_after-rank m v u events (sym (ap (λ o. state_after m o events) e) ∙ h),
  )
]

-- A history of a machine, from any state, has at most six events.
pub state_after-ends :
    (m : MachineName) (s u : String) (events : List String)
    → state_after m (some s) events ≡ some u
    → length events ≤ 6
state_after-ends m s u events h = omega (arith, state_after-rank m s u events h, rank_bound u)
