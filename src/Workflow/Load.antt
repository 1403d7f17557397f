-- ===== src/Workflow/Load.antt =====
-- `loadWorkflow`: the launch commands of the stored settings, over the defaults. The other keys of
-- the stored object replace the defaults unchecked.
use trade_gate.Prelude.{
  All, ℕ, suc, ◌≡◌, Option, none, some, String, List, [], ◌∷◌, ◌==◌, string_eq, Option-cases,
  Bool-cases, inl, inr,
}
use trade_gate.Dict
use trade_gate.Numbers.{Numbers}
use trade_gate.Workflow.Values.{Value, undefined, number, array, object, items, entries, Language}
use trade_gate.Workflow.Types.{cli_names}
use trade_gate.Workflow.Readers.{CommandError, cli_command_error}

module _ (N : Numbers) (L : Language N) where
  open N use {of_count}

  -- An array has its indices as keys.
  abbrev indexed : ℕ → List (Value N) → List (String × Value N)
  indexed i [] = []
  indexed i (v ∷ vs) = (L.to_text (number (of_count i)), v) ∷ indexed (suc i) vs

  -- The own keys of what is spread: none where it is missing or no object.
  abbrev pub own_keys : Option (Value N) → List (String × Value N)
  own_keys (some (object es)) = entries N es
  own_keys (some (array vs)) = indexed 0 (items N vs)
  own_keys _ = []

  -- What `o[key]` gives.
  abbrev pub value_of : Option (Value N) → Value N
  value_of none = undefined
  value_of (some v) = v

  abbrev pub command : String → List (String × Value N) → Option CommandError
  command name cli = cli_command_error N L (value_of (Dict.get name cli))

  -- There is an acceptable command under each of the names.
  abbrev pub AreGood : List String → List (String × Value N) → Type 0
  AreGood names cli = All (λ name. command name cli ≡ none) names

  -- The body of the loop over the names.
  unfoldable pub mend :
      List (String × Value N) → String → List (String × Value N) → List (String × Value N)
  mend defaults name cli = elim (command name cli) [
    | none ↦ cli
    | some e ↦ Dict.set name (value_of (Dict.get name defaults)) cli
  ]

  unfoldable pub mend_all :
      List (String × Value N) → List String → List (String × Value N) → List (String × Value N)
  unfolding mend
  mend_all defaults [] cli = cli
  mend_all defaults (name ∷ names) cli = mend_all defaults names (mend defaults name cli)

  unfoldable pub load_commands :
      List (String × Value N) → Option (Value N) → List (String × Value N)
  unfolding mend_all
  load_commands defaults stored =
      mend_all defaults cli_names (Dict.of_entries defaults (own_keys stored))

module _ (N : Numbers) (L : Language N) (defaults : List (String × Value N)) where
  mend-good :
      (name : String) (cli : List (String × Value N))
      → command N L name defaults ≡ none
      → command N L name (mend N L defaults name cli) ≡ none
  unfolding mend
  mend-good name cli d = elim (Option-cases (command N L name cli)) [
    | inl e ↦ rw (mend, e) e
    | inr (x, e) ↦
        rw (mend, e, Dict.get-set_self name (value_of N L (Dict.get name defaults)) cli) d
  ]

  mend-keeps :
      (name other : String) (cli : List (String × Value N))
      → command N L name defaults ≡ none
      → command N L other defaults ≡ none
      → command N L other cli ≡ none
      → command N L other (mend N L defaults name cli) ≡ none
  unfolding mend
  mend-keeps name other cli d o h = elim (Option-cases (command N L name cli)) [
    | inl e ↦ rw (mend, e) h
    | inr (x, e) ↦
        let set = Dict.get-set other name (value_of N L (Dict.get name defaults)) cli in
        elim (Bool-cases (name == other)) [
          | inl q ↦ rw (mend, e, set, q) d
          | inr q ↦ rw (mend, e, set, q) h
        ]
  ]

  mend_all-keeps :
      (names : List String) (other : String) (cli : List (String × Value N))
      → AreGood N L names defaults
      → command N L other defaults ≡ none
      → command N L other cli ≡ none
      → command N L other (mend_all N L defaults names cli) ≡ none
  unfolding mend_all
  mend_all-keeps [] other cli ds o h = h
  mend_all-keeps (name ∷ names) other cli ds o h =
      mend_all-keeps names other (mend N L defaults name cli) ds.1 o
        (mend-keeps name other cli ds.0 o h)

  mend_all-good :
      (names : List String) (cli : List (String × Value N))
      → AreGood N L names defaults
      → AreGood N L names (mend_all N L defaults names cli)
  unfolding mend_all
  mend_all-good [] cli ds = tt
  mend_all-good (name ∷ names) cli ds = (
    mend_all-keeps names name (mend N L defaults name cli) ds.1 ds.0 (mend-good name cli ds.0),
    mend_all-good names (mend N L defaults name cli) ds.1,
  )

  -- Whatever was stored: if the defaults have an acceptable command under each name of a CLI, so
  -- do the loaded settings.
  pub load_commands-good :
      (stored : Option (Value N))
      → AreGood N L cli_names defaults
      → AreGood N L cli_names (load_commands N L defaults stored)
  unfolding load_commands
  load_commands-good stored ds =
      mend_all-good cli_names (Dict.of_entries defaults (own_keys N L stored)) ds
