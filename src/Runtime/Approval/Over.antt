-- ===== src/Runtime/Approval/Over.antt =====
-- What a rejection leaves, and that other rejections keep it.
use mathlib.Core.Option.{some_inj}
use trade_gate.Runtime.Approval.Laws.{Answer-cases, waiting-gives}
use trade_gate.Prelude.{
  ◌≢◌, Bool, List, [], ◌∷◌, arith, filter, ◌==◌, Bool-cases, ◌≡◌, refl, false, ◌∙◌, sym, ap, subst,
  Option, none, some, String, contains, string_eq, Option-cases, inl, inr,
}
use trade_gate.Dict
use trade_gate.Runtime.World.{
  World, DemoIntent, IntentStatus-discrete, rejected, pending_approval, intent_status_eq,
  save_thread, save_intent,
}
use mathlib.Core.Bool.{decide}
use trade_gate.Runtime.Approval.{
  IntentContent, intent_is, gives, fails, By, waiting, waiting_intent, thread_of, episode_of,
  RejectTimes, write_rejection, reject_intent, ApproveTimes, IntentTimes, issue_intent_confirmation,
  approve_intent,
}

-- The intent as the rejection leaves it, among the intents.
abbrev pub HasRejected : String → World → Type 0
HasRejected id w = (i : DemoIntent) × (Dict.get id w.intents ≡ some i) × (i.status ≡ rejected)

save_intent-get :
    (ep : Option String) (i : DemoIntent) (w : World)
    → Dict.get i.id (save_intent ep i w).intents ≡ some i
unfolding save_intent
save_intent-get none i w = Dict.get-set_self i.id i w.intents
save_intent-get (some ep) i w = Dict.get-set_self i.id i w.intents

save_intent-approving :
    (ep : Option String) (i : DemoIntent) (w : World) → (save_intent ep i w).approving ≡ w.approving
unfolding save_intent
save_intent-approving none i w = refl
save_intent-approving (some ep) i w = refl

save_intent-intents :
    (ep : Option String) (i : DemoIntent) (w : World)
    → (save_intent ep i w).intents ≡ Dict.set i.id i w.intents
unfolding save_intent
save_intent-intents none i w = refl
save_intent-intents (some ep) i w = refl

pub found_waiting :
    (id : String) (i : DemoIntent) (w : World)
    → waiting_intent id w ≡ gives i
    → waiting (Dict.get id w.intents) ≡ gives i
unfolding waiting_intent
found_waiting id i w h = h

pending≢rejected : pending_approval ≢ rejected
pending≢rejected h = ground (arith, h)

pub write_rejection-HasRejected :
    (i : DemoIntent) (c : RejectTimes) (w : World) → HasRejected i.id (write_rejection i c w).0
unfolding write_rejection save_thread
write_rejection-HasRejected i c w =
    let r : DemoIntent = record i { status = rejected; error = some "用户拒绝" } in
    let told = save_intent (episode_of i) r w in
    let g = save_intent-get (episode_of i) r w in
    elim (Option-cases (thread_of r told)) [
      | inl e ↦ rw (e, write_rejection) (r, g, refl)
      | inr (t, e) ↦ rw (e, write_rejection) (r, g, refl)
    ]

pub write_rejection-approving :
    (i : DemoIntent) (c : RejectTimes) (w : World)
    → (write_rejection i c w).0.approving ≡ w.approving
unfolding write_rejection save_thread
write_rejection-approving i c w =
    let r : DemoIntent = record i { status = rejected; error = some "用户拒绝" } in
    let told = save_intent (episode_of i) r w in
    let a = save_intent-approving (episode_of i) r w in
    elim (Option-cases (thread_of r told)) [
      | inl e ↦ rw (e, write_rejection) a
      | inr (t, e) ↦ rw (e, write_rejection) a
    ]

pub waiting-rejected :
    (id : String) (w : World) → HasRejected id w → waiting_intent id w ≡ fails (intent_is rejected)
unfolding waiting_intent waiting IntentStatus-discrete decide
waiting-rejected id w (i, g, s) = rw (g, waiting_intent, waiting) (rw (s) refl)

pub to_rejection :
    (id : String) (c : RejectTimes) (w : World) (i : DemoIntent)
    → waiting_intent id w ≡ gives i
    → (reject_intent id c w).0 ≡ (write_rejection i c w).0
unfolding reject_intent
to_rejection id c w i h = rw (h, reject_intent) refl

pub reject_waiting :
    (id : String) (c : RejectTimes) (w : World)
    → waiting_intent id w ≡ fails (intent_is rejected)
    → (reject_intent id c w).1 ≡ fails (intent_is rejected)
unfolding reject_intent
reject_waiting id c w h = rw (h, reject_intent) refl

module _ (hash : IntentContent → String) where
  pub issue_waiting :
      (id : String) (c : IntentTimes hash) (w : World)
      → waiting_intent id w ≡ fails (intent_is rejected)
      → (issue_intent_confirmation hash id c w).1 ≡ fails (intent_is rejected)
  unfolding issue_intent_confirmation
  issue_waiting id c w h = rw (h, issue_intent_confirmation) refl

  pub approve_waiting :
      (by : By) (id : String) (given : Option String) (c : ApproveTimes hash) (w : World)
      → contains id w.approving ≡ false
      → waiting_intent id w ≡ fails (intent_is rejected)
      → (approve_intent hash by id given c w).1 ≡ fails (intent_is rejected)
  unfolding approve_intent
  approve_waiting by id given c w b h = rw (b, h, approve_intent) refl

-- Each intent stands under its own id.
abbrev pub AreIntentsKeyed : World → Type 0
AreIntentsKeyed w = (k : String) (i : DemoIntent) → Dict.get k w.intents ≡ some i → i.id ≡ k

-- The intent is rejected, and no approval of it is going on.
abbrev pub IsOver : String → World → Type 0
IsOver id w = HasRejected id w × (contains id w.approving ≡ false) × AreIntentsKeyed w

write_rejection-intents :
    (i : DemoIntent) (c : RejectTimes) (w : World)
    → (write_rejection i c w).0.intents
      ≡ Dict.set i.id (record i { status = rejected; error = some "用户拒绝" }) w.intents
unfolding write_rejection save_thread save_intent
write_rejection-intents i c w =
    let r : DemoIntent = record i { status = rejected; error = some "用户拒绝" } in
    let told = save_intent (episode_of i) r w in
    let s = save_intent-intents (episode_of i) r w in
    elim (Option-cases (thread_of r told)) [
      | inl e ↦ rw (e, write_rejection) s
      | inr (t, e) ↦ rw (e, write_rejection) s
    ]

set-keyed :
    (r : DemoIntent) (w : World)
    → AreIntentsKeyed w
    → AreIntentsKeyed (record w { intents = Dict.set r.id r w.intents })
set-keyed r w h k j e = elim (Bool-cases (r.id == k)) [
  | inl u ↦
      ap (λ x. x.id) (some_inj.0 (sym e ∙ Dict.get-set_eq k r.id r w.intents u))
      ∙ (string_eq.beq_iff r.id k).0 u
  | inr u ↦ h k j (sym (Dict.get-set_ne k r.id r w.intents u) ∙ e)
]

-- What a rejection of a waiting intent under an id of its own leaves.
pub write_rejection-keyed :
    (i : DemoIntent) (c : RejectTimes) (w : World)
    → AreIntentsKeyed w
    → AreIntentsKeyed (write_rejection i c w).0
write_rejection-keyed i c w h =
    let r : DemoIntent = record i { status = rejected; error = some "用户拒绝" } in
    λ k j e. set-keyed r w h k j (sym (ap (Dict.get k) (write_rejection-intents i c w)) ∙ e)

-- An intent that waits is not a rejected one.
pub other_id :
    (id k : String) (i : DemoIntent) (w : World)
    → HasRejected id w
    → waiting_intent k w ≡ gives i
    → (k == id) ≡ false
unfolding waiting_intent
other_id id k i w (j, g, s) h = elim (Bool-cases (k == id)) [
  | inr u ↦ u
  | inl u ↦
      let (f, p) = waiting-gives (Dict.get k w.intents) i h in
      let same : some i ≡ some j =
        sym f ∙ ap (λ x. Dict.get x w.intents) ((string_eq.beq_iff k id).0 u) ∙ g in
      absurd (pending≢rejected (sym p ∙ ap (λ x. x.status) (some_inj.0 same) ∙ s))
]

pub rejects-IsOver :
    (id k : String) (c : RejectTimes) (w : World) → IsOver id w → IsOver id (reject_intent k c w).0
unfolding reject_intent
rejects-IsOver id k c w o = elim (Answer-cases (waiting_intent k w)) [
  | inl (e, h) ↦ rw (h, reject_intent) o
  | inr (i, h) ↦
      let u = other_id id k i w o.0 h in
      let f = (waiting-gives (Dict.get k w.intents) i (found_waiting k i w h)).0 in
      let own : (i.id == id) ≡ false = ap (λ x. x == id) (o.2 k i f) ∙ u in
      let r : DemoIntent = record i { status = rejected; error = some "用户拒绝" } in
      let left = write_rejection-intents i c w in
      subst (λ x. IsOver id x) (sym (to_rejection k c w i h))
        (
          (o.0.0, ap (Dict.get id) left ∙ Dict.get-set_ne id i.id r w.intents own ∙ o.0.1, o.0.2),
          ap (contains id) (write_rejection-approving i c w) ∙ o.1,
          write_rejection-keyed i c w o.2,
        )
]

pub contains-filter_not :
    (id : String) (p : String → Bool) (ks : List String)
    → contains id ks ≡ false
    → contains id (filter p ks) ≡ false
contains-filter_not id p [] h = refl
contains-filter_not id p (k ∷ ks) h = ground (arith, h, contains-filter_not id p ks)
