-- ===== src/Workflow/Kept.antt =====
-- What the handlers of a patch keep of the settings.
use trade_gate.Prelude.{
  ◌≡◌, Option, some, String, List, [], ◌∷◌, All, string_eq, nat_eq, Option-cases, inl, inr,
}
use trade_gate.Dict
use trade_gate.Numbers.{Numbers}
use trade_gate.Workflow.Values.{Value, Language, as_object}
use trade_gate.Workflow.Types.{Workflow}
use trade_gate.Workflow.Fields.{Patch, Patched, Handler, field, store, refuse, update}
use trade_gate.Workflow.Readers.{patch_commands, merge_commands}
use trade_gate.Workflow.Patch.{run_all}

module _ (N : Numbers) (L : Language N) (P : Workflow N → Type 0) where
  abbrev pub Keeps : Handler N → Type 0
  Keeps h = (patch : Patch N) (st : Patched N) → P st.next → P (h patch st).next

  -- A field keeps what storing any value that is read keeps.
  pub field-Keeps {ℓ} :
      {A : Type ℓ} (key : String) (read : Value N → Option A) (set : A → Workflow N → Workflow N)
      → ((v : Value N) (a : A) → read v ≡ some a → (w : Workflow N) → P w → P (set a w))
      → Keeps (field N L key read set)
  unfolding field store refuse update
  field-Keeps key read set h patch st p = elim (Option-cases (Dict.get key patch)) [
    | inl e ↦ rw (e, field) p
    | inr (v, e) ↦ elim (Option-cases (read v)) [
      | inl f ↦ rw (e, field, f) p
      | inr (a, f) ↦ rw (e, field, f) (h v a f st.next p)
    ]
  ]

  -- One that stores into another field.
  pub other-Keeps {ℓ} :
      {A : Type ℓ} (key : String) (read : Value N → Option A) (set : A → Workflow N → Workflow N)
      → ((a : A) (w : Workflow N) → P w → P (set a w))
      → Keeps (field N L key read set)
  other-Keeps key read set h = field-Keeps key read set (λ v a e w p. h a w p)

  pub run_all-Keeps : (hs : List (Handler N)) → All (λ h. Keeps h) hs → Keeps (run_all N L hs)
  unfolding run_all
  run_all-Keeps [] ks patch st p = p
  run_all-Keeps (h ∷ hs) ks patch st p = run_all-Keeps hs ks.1 patch (h patch st) (ks.0 patch st p)

  pub patch_commands-Keeps :
      (current : Workflow N)
      → ((commands : List (String × String)) (w : Workflow N)
          → P w
          → P (record w { cli_commands = commands }))
      → Keeps (patch_commands N L current)
  unfolding patch_commands refuse
  patch_commands-Keeps current h patch st p = elim (Option-cases (Dict.get "cli_commands" patch)) [
    | inl e ↦ rw (patch_commands, e) p
    | inr (v, e) ↦ elim (Option-cases (as_object N v)) [
      | inl f ↦ rw (patch_commands, e, f) p
      | inr (es, f) ↦
          rw (patch_commands, e, f)
            (h (merge_commands N L es current.cli_commands st.errors).0 st.next p)
    ]
  ]
