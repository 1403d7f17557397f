-- ===== src/Runtime/Settings/Sound.antt =====
-- What `setWorkflow` keeps of the settings.
use trade_gate.Prelude.{
  ℕ, ◌≡◌, refl, Bool, true, false, ◌∙◌, sym, ap, String, List, [], ◌∷◌, arith, map, filter,
  contains, ◌==◌, string_eq, Bool-cases, inl, inr,
}
use trade_gate.Dict
use trade_gate.Numbers.{Numbers}
use trade_gate.Threads.Types.{Backend, paper, demo, cli, agent_mcp}
use trade_gate.Workflow.Values.{Language}
use trade_gate.Workflow.Types.{Workflow}
use trade_gate.Workflow.Fields.{Patch, Patched}
use trade_gate.Workflow.Patch.{apply_workflow_patch}
use trade_gate.Workflow.Lists.{IsListed, apply_workflow_patch-IsListed}
use trade_gate.Runtime.Settings.{
  backend_name, settings, setting_of, has_changed, changed_keys, Held, on_backend, set_changed,
  set_workflow,
}

dropped : (p : String → Bool) (j : String) (ks : List String) → filter p (j ∷ ks) ≡ [] → p j ≡ false
dropped p j ks h = ground (arith, h)

filter-tail :
    (p : String → Bool) (j : String) (ks : List String) → filter p (j ∷ ks) ≡ [] → filter p ks ≡ []
filter-tail p j ks h = ground (arith, h)

filter_none :
    (p : String → Bool) (k : String) (ks : List String)
    → filter p ks ≡ []
    → contains k ks ≡ true
    → p k ≡ false
filter_none p k [] h c = absurd (ground (arith, c))
filter_none p k (j ∷ ks) h c = elim (Bool-cases (k == j)) [
  | inl e ↦ ap p ((string_eq.beq_iff k j).0 e) ∙ dropped p j ks h
  | inr e ↦ filter_none p k ks (filter-tail p j ks h) (ground (arith, c, e))
]

same_backend : (a b : Backend) → (backend_name a == backend_name b) ≡ true → a ≡ b
same_backend paper paper h = refl
same_backend demo demo h = refl
same_backend cli cli h = refl
same_backend agent_mcp agent_mcp h = refl
same_backend _ _ h = absurd (ground (arith, h))

module _ (N : Numbers) where
  unchanged_execution :
      (current next : Workflow N)
      → changed_keys N current next ≡ []
      → next.execution ≡ current.execution
  unfolding changed_keys setting_of has_changed Dict.get
  unchanged_execution current next h =
      let q =
        filter_none (has_changed N current next) "execution" (map (λ e. e.0) (settings N next)) h
          refl in
      same_backend next.execution current.execution (ground (arith, q))

  -- The store holds the settings of the memory, they name the backend that runs, and their lists
  -- are well formed.
  abbrev pub IsSound : Backend → Held N → Type 0
  IsSound kind h = (h.saved ≡ h.workflow) × (h.workflow.execution ≡ kind) × IsListed N h.workflow

  set_changed-IsSound :
      (kind : Backend) (next : Workflow N) (changed errors : List String) (h : Held N)
      → IsListed N next
      → (changed ≡ [] → next.execution ≡ h.workflow.execution)
      → IsListed N h.workflow
      → h.saved ≡ h.workflow
      → next.execution ≡ kind
      → IsSound kind (set_changed N next changed errors h).held
  unfolding set_changed
  set_changed-IsSound kind next [] errors h i u j s x = (s, sym (u refl) ∙ x, j)
  set_changed-IsSound kind next (k ∷ ks) errors h i u j s x = (refl, x, i)

  -- Whatever the patch, its errors included: if the store holds the settings of the memory and
  -- their watchlist is well formed (as `IsListed` says), so it is after `setWorkflow`, and the
  -- settings name the backend that runs, whatever the patch or the settings before named.
  pub set_workflow-IsSound :
      (L : Language N) (kind : Backend) (patch : Patch N) (now : ℕ) (h : Held N)
      → h.saved ≡ h.workflow
      → IsListed N h.workflow
      → IsSound kind (set_workflow N L kind patch now h).held
  unfolding set_workflow
  set_workflow-IsSound L kind patch now h s i =
      let patched : Patched N = apply_workflow_patch N L h.workflow patch now in
      let next : Workflow N = on_backend N kind patched.next in
      set_changed-IsSound kind next (changed_keys N h.workflow next) patched.errors h
        (apply_workflow_patch-IsListed N L h.workflow patch now i).0
        (unchanged_execution h.workflow next) i s refl
