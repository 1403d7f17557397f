-- ===== src/Workflow/Fields.antt =====
-- The ways in which `applyWorkflowPatch` reads a key of a patch.
use trade_gate.Prelude.{
  ℕ, not, ◌||◌, Option, none, some, String, List, [], ◌∷◌, ◌++◌, map, ltb, ◌==◌, string_eq,
  contains, filter, take, if◌then◌else◌,
}
use trade_gate.Dict
use trade_gate.Numbers.{Numbers}
use trade_gate.Workflow.Values.{Value, null, undefined, as_array, as_text, Language}
use trade_gate.Workflow.Texts.{is_model_id}
use trade_gate.Workflow.Types.{Workflow}

module _ (N : Numbers) where
  abbrev pub Patch : Type 0
  Patch = List (String × Value N)

  -- `next` and `errors` while the patch is read.
  pub record Patched : Type 0 where
    pub next : Workflow N
    pub errors : List String

  abbrev pub Handler : Type 0
  Handler = Patch → Patched → Patched

-- The elements of `new Set(xs)`, after those that were added.
unfoldable pub to_set : List String → List String → List String
to_set added [] = added
to_set added (x ∷ xs) = to_set (if contains x added then added else added ++ x ∷ []) xs

-- `xs.map(f)` where `f` may fail: `none` if it does for some element.
abbrev pub map_all {ℓ κ} : {A : Type ℓ} {B : Type κ} → (A → Option B) → List A → Option (List B)
map_all f [] = some []
map_all f (x ∷ xs) = elim (f x) [
  | none ↦ none
  | some y ↦ elim (map_all f xs) [ none ↦ none | some ys ↦ some (y ∷ ys) ]
]

module _ (N : Numbers) (L : Language N) where
  open N use {Number, of_text, lt, mul, div, least, greatest, round, is_finite, to_count, to_text}

  unfoldable pub refuse : String → Patched N → Patched N
  refuse key st = record st { errors = st.errors ++ key ∷ [] }

  unfoldable pub update : (Workflow N → Workflow N) → Patched N → Patched N
  update f st = record st { next = f st.next }

  -- What is read of a value is stored; where there is nothing, the key is an error.
  unfoldable pub store {ℓ} :
      {A : Type ℓ} → String → Option A → (A → Workflow N → Workflow N) → Patched N → Patched N
  unfolding refuse update
  store key none set st = refuse key st
  store key (some a) set st = update (set a) st

  -- `if (key in patch) { const v = read(patch[key]); … }`
  unfoldable pub field {ℓ} :
      {A : Type ℓ} → String → (Value N → Option A) → (A → Workflow N → Workflow N) → Handler N
  unfolding store
  field key read set patch st = elim (Dict.get key patch) [
    | none ↦ st
    | some v ↦ store key (read v) set st
  ]

  -- `clampNum`
  unfoldable pub clamp_num : String → String → Value N → Option Number
  clamp_num lo hi v =
      let n = L.to_number v in
      if not (is_finite n) then none else some (least (of_text hi) (greatest (of_text lo) n))

  -- A whole number between the bounds.
  unfoldable pub read_count : ℕ → ℕ → Value N → Option ℕ
  read_count lo hi v = elim (to_count (L.to_number v)) [
    | none ↦ none
    | some n ↦ if ltb n lo || ltb hi n then none else some n
  ]

  -- From one hour to thirty days.
  unfoldable pub read_interval : Value N → Option Number
  read_interval v =
      let n = L.to_number v in
      if not (is_finite n) || lt n (of_text "3600000") || lt (of_text "2592000000") n
      then none
      else some (round n)

  -- One of the texts of a table.
  unfoldable pub read_choice {ℓ} : {A : Type ℓ} → List (String × A) → Value N → Option A
  read_choice options v = elim (as_text N v) [ none ↦ none | some s ↦ Dict.get s options ]

  -- The model's name, `some none` for no model.
  unfoldable pub read_model : Value N → Option (Option String)
  unfolding is_model_id
  read_model null = some none
  read_model undefined = some none
  read_model v = elim (as_text N v) [
    | none ↦ none
    | some s ↦
        if s == ""
        then some none
        else if is_model_id (L.trim s)
        then some (some (L.trim s))
        else none
  ]

  unfoldable pub read_symbols : Value N → Option (List String)
  unfolding to_set
  read_symbols v = elim (as_array N v) [
    | none ↦ none
    | some vs ↦ elim (map_all (as_text N) vs) [
      | none ↦ none
      | some texts ↦ some (
          take 300
            (to_set [] (filter (λ s. not (s == "")) (map (λ s. L.to_upper_case (L.trim s)) texts))))
    ]
  ]

  -- A percentage as its text, rounded to `1 / unit`.
  unfoldable pub rounded_to : String → Number → Number
  rounded_to unit v = div (round (mul v (of_text unit))) (of_text unit)
