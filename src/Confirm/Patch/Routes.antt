-- ===== src/Confirm/Patch/Routes.antt =====
-- Each key of a patch takes exactly one of the three routes.
use text.Mathlib.TextEquality.{eq_iff}
use trade_gate.Prelude.{
  ◌≡◌, refl, ◌∙◌, ap, Bool, true, false, not, ◌&&◌, ◌||◌, Option, none, some, String, List, [], ◌∷◌,
  arith, ◌==◌, string_eq, if◌then◌else◌, contains, contains-append, contains-all,
}
use trade_gate.Dict
use trade_gate.Confirm.Patch.{
  direct_workflow_keys, is_direct_key, is_proposal_key, Split, split_entry, split_entries,
  split_workflow_patch,
}

direct_not_proposal : (k : String) → is_direct_key k ≡ true → is_proposal_key k ≡ false
unfolding is_direct_key is_proposal_key
direct_not_proposal k h =
    ground (arith, contains-all (λ j. not (is_proposal_key j)) k direct_workflow_keys refl h)

paused_not_direct : (k : String) → (k == "paused") ≡ true → is_direct_key k ≡ false
unfolding is_direct_key
paused_not_direct k h = ap is_direct_key ((eq_iff k "paused").0 h)

paused_not_proposal : (k : String) → (k == "paused") ≡ true → is_proposal_key k ≡ false
unfolding is_proposal_key
paused_not_proposal k h = ap is_proposal_key ((eq_iff k "paused").0 h)

module _ {ℓ} {V : Type ℓ} (is_true : V → Bool) where
  -- What takes effect at once: the harmless keys, and pausing.
  abbrev pub may_apply : String → V → Bool
  may_apply k v = is_direct_key k || k == "paused" && is_true v

  -- What waits for a human: the keys that change what is traded or judged, and resuming.
  abbrev pub may_propose : String → V → Bool
  may_propose k v = is_proposal_key k || k == "paused" && not (is_true v)

  -- The value that `patch` gives the key, if it passes the test.
  abbrev pub passed : (String → V → Bool) → String → Option V → Option V
  passed test k none = none
  passed test k (some v) = if test k v then some v else none

  abbrev or_else : Option V → Option V → Option V
  or_else none o = o
  or_else (some v) o = some v

  or_else-none : (o : Option V) → or_else o none ≡ o
  or_else-none none = refl
  or_else-none (some v) = refl

  get-entry_direct :
      (k j : String) (v : V) (s : Split V)
      → Dict.get k (split_entry is_true s j v).direct ≡ (
          if j == k
          then or_else (passed may_apply k (some v)) (Dict.get k s.direct)
          else Dict.get k s.direct)
  unfolding split_entry
  get-entry_direct k j v s = ground (
    arith,
    eq_iff j k,
    Dict.get-set_self j v s.direct,
    Dict.get-set_ne k j v s.direct,
    paused_not_proposal j,
  )

  get-entry_proposal :
      (k j : String) (v : V) (s : Split V)
      → Dict.get k (split_entry is_true s j v).proposal ≡ (
          if j == k
          then or_else (passed may_propose k (some v)) (Dict.get k s.proposal)
          else Dict.get k s.proposal)
  unfolding split_entry
  get-entry_proposal k j v s = ground (
    arith,
    eq_iff j k,
    Dict.get-set_self j v s.proposal,
    Dict.get-set_ne k j v s.proposal,
    direct_not_proposal j,
    paused_not_direct j,
  )

  get-direct :
      (k : String) (s : Split V) (patch : List (String × V))
      → Dict.HasUniqueKeys patch
      → Dict.get k (split_entries is_true s patch).direct
        ≡ or_else (passed may_apply k (Dict.get k patch)) (Dict.get k s.direct)
  unfolding split_entries Dict.get
  get-direct k s [] u = refl
  get-direct k s ((j, v) ∷ patch) u = ground (
    arith,
    eq_iff j k,
    get-direct k (split_entry is_true s j v) patch u.1,
    get-entry_direct k j v s,
  )

  get-proposal :
      (k : String) (s : Split V) (patch : List (String × V))
      → Dict.HasUniqueKeys patch
      → Dict.get k (split_entries is_true s patch).proposal
        ≡ or_else (passed may_propose k (Dict.get k patch)) (Dict.get k s.proposal)
  unfolding split_entries Dict.get
  get-proposal k s [] u = refl
  get-proposal k s ((j, v) ∷ patch) u = ground (
    arith,
    eq_iff j k,
    get-proposal k (split_entry is_true s j v) patch u.1,
    get-entry_proposal k j v s,
  )

  -- A key of the patch that neither takes effect nor waits.
  abbrev pub is_refused : String → Option V → Bool
  is_refused k none = false
  is_refused k (some v) = not (may_apply k v) && not (may_propose k v)

  contains-entry_refused :
      (k j : String) (v : V) (s : Split V)
      → contains k (split_entry is_true s j v).refused
        ≡ (contains k s.refused || j == k && is_refused k (some v))
  unfolding split_entry
  contains-entry_refused k j v s =
      ground (arith, eq_iff j k, eq_iff k j, contains-append k s.refused (j ∷ []))

  contains-refused :
      (k : String) (s : Split V) (patch : List (String × V))
      → Dict.HasUniqueKeys patch
      → contains k (split_entries is_true s patch).refused
        ≡ (contains k s.refused || is_refused k (Dict.get k patch))
  unfolding split_entries Dict.get
  contains-refused k s [] u = ground arith
  contains-refused k s ((j, v) ∷ patch) u = ground (
    arith,
    eq_iff j k,
    contains-refused k (split_entry is_true s j v) patch u.1,
    contains-entry_refused k j v s,
  )

  -- What the split does with each key of a patch whose keys are unique: it takes effect, it is proposed or it is
  -- refused, as the key and its value say, and nothing else gets in.
  pub split_workflow_patch_routes :
      (patch : List (String × V)) (k : String)
      → Dict.HasUniqueKeys patch
      → let s = split_workflow_patch is_true (some patch) in
        (Dict.get k s.direct ≡ passed may_apply k (Dict.get k patch))
        × (Dict.get k s.proposal ≡ passed may_propose k (Dict.get k patch))
        × (contains k s.refused ≡ is_refused k (Dict.get k patch))
  unfolding split_workflow_patch Dict.get
  split_workflow_patch_routes patch k u =
      let s : Split V = record { direct = []; proposal = []; refused = [] } in
      (
        get-direct k s patch u ∙ or_else-none _,
        get-proposal k s patch u ∙ or_else-none _,
        contains-refused k s patch u,
      )
