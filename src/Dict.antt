-- ===== src/Dict.antt =====
-- `Map` of the language: an association list in the order of first insertion.
use mathlib.Core.List.{append_assoc, append-nil}
use trade_gate.Prelude.{
  ◌≡◌, refl, sym, ◌∙◌, true, false, if-same, Bool-cases, inl, inr, none≢some, All, Option, none,
  some, List, [], ◌∷◌, ◌++◌, arith, Eq, beq_refl, beq_comm, ◌==◌, if◌then◌else◌,
}

module _ {ℓ κ} {K : Type ℓ} {V : Type κ} ⦃e : Eq K⦄ where
  unfoldable pub get : K → List (K × V) → Option V
  get k [] = none
  get k ((j, v) ∷ m) = if j == k then some v else get k m

  -- A key that is there keeps its place.
  unfoldable pub set : K → V → List (K × V) → List (K × V)
  set k v [] = (k, v) ∷ []
  set k v ((j, w) ∷ m) = if j == k then (j, v) ∷ m else (j, w) ∷ set k v m

  unfoldable pub remove : K → List (K × V) → List (K × V)
  remove k [] = []
  remove k ((j, w) ∷ m) = if j == k then remove k m else (j, w) ∷ remove k m

  -- `new Map(entries)`, from a map to which the entries are added.
  unfoldable pub of_entries : List (K × V) → List (K × V) → List (K × V)
  unfolding set
  of_entries m [] = m
  of_entries m ((k, v) ∷ entries) = of_entries (set k v m) entries

  -- Every entry's key is new among the entries behind it.
  abbrev pub HasUniqueKeys : List (K × V) → Type κ
  HasUniqueKeys [] = Unit
  HasUniqueKeys ((k, v) ∷ m) = (get k m ≡ none) × HasUniqueKeys m

abbrev pub values {ℓ κ} : {K : Type ℓ} {V : Type κ} → List (K × V) → List V
values [] = []
values ((k, v) ∷ m) = v ∷ values m

module _ {ℓ κ} {K : Type ℓ} {V : Type κ} ⦃e : Eq K⦄ where
  pub get-set :
      (j k : K) (v : V) (m : List (K × V))
      → get j (set k v m) ≡ (if k == j then some v else get j m)
  unfolding get set
  get-set j k v [] = refl
  get-set j k v ((i, w) ∷ m) =
      ground (arith, get-set j k v m, e.beq_iff k j, e.beq_iff i k, e.beq_iff i j)

  pub get-remove :
      (j k : K) (m : List (K × V)) → get j (remove k m) ≡ (if k == j then none else get j m)
  unfolding get remove
  get-remove j k [] = ground arith
  get-remove j k ((i, w) ∷ m) =
      ground (arith, get-remove j k m, e.beq_iff k j, e.beq_iff i k, e.beq_iff i j)

  pub set-HasUniqueKeys :
      (k : K) (v : V) (m : List (K × V)) → HasUniqueKeys m → HasUniqueKeys (set k v m)
  unfolding get set
  set-HasUniqueKeys k v [] u = ground arith
  set-HasUniqueKeys k v ((i, w) ∷ m) u =
      ground (arith, set-HasUniqueKeys k v m u.1, get-set i k v m, e.beq_iff i k, e.beq_iff k i)

  pub get-set_self : (k : K) (v : V) (m : List (K × V)) → get k (set k v m) ≡ some v
  get-set_self k v m = simp (get-set, beq_refl)

  pub get-remove_self : (k : K) (m : List (K × V)) → get k (remove k m) ≡ none
  get-remove_self k m = simp (get-remove, beq_refl)

  pub get-set_eq :
      (j k : K) (v : V) (m : List (K × V)) → (k == j) ≡ true → get j (set k v m) ≡ some v
  get-set_eq j k v m h = simp (get-set, h)

  pub get-set_ne :
      (j k : K) (v : V) (m : List (K × V)) → (k == j) ≡ false → get j (set k v m) ≡ get j m
  get-set_ne j k v m h = simp (get-set, h)

  pub get-remove_ne : (j k : K) (m : List (K × V)) → (k == j) ≡ false → get j (remove k m) ≡ get j m
  get-remove_ne j k m h = simp (get-remove, h)

  get-remove_eq : (j k : K) (m : List (K × V)) → (k == j) ≡ true → get j (remove k m) ≡ none
  get-remove_eq j k m h = simp (get-remove, h)

  pub get-remove-none : (j k : K) (m : List (K × V)) → get j m ≡ none → get j (remove k m) ≡ none
  get-remove-none j k m h = rw (get-remove j k m, h) (if-same (k == j) none)

  pub remove-HasUniqueKeys :
      (k : K) (m : List (K × V)) → HasUniqueKeys m → HasUniqueKeys (remove k m)
  unfolding remove
  remove-HasUniqueKeys k [] u = tt
  remove-HasUniqueKeys k ((j, w) ∷ m) u =
      ground (arith, remove-HasUniqueKeys k m u.1, get-remove-none j k m u.0)

  pub get-remove-some :
      (j k : K) (v : V) (m : List (K × V)) → get j (remove k m) ≡ some v → get j m ≡ some v
  get-remove-some j k v m h = elim (Bool-cases (k == j)) [
    | inl e ↦ absurd (none≢some v (sym (get-remove_eq j k m e) ∙ h))
    | inr e ↦ sym (get-remove_ne j k m e) ∙ h
  ]

  get-append-none :
      (k : K) (m n : List (K × V)) → get k (m ++ n) ≡ none → (get k m ≡ none) × (get k n ≡ none)
  unfolding get
  get-append-none k [] n h = (refl, h)
  get-append-none k ((j, w) ∷ m) n h = ground (arith, get-append-none k m n)

  -- The key of an entry behind others is new among those too.
  HasUniqueKeys-append :
      (m : List (K × V)) (k : K) (v : V) (n : List (K × V))
      → HasUniqueKeys (m ++ (k, v) ∷ n)
      → get k m ≡ none
  unfolding get
  HasUniqueKeys-append [] k v n u = refl
  HasUniqueKeys-append ((j, w) ∷ m) k v n u =
      ground (
        arith,
        HasUniqueKeys-append m k v n u.1,
        get-append-none j m ((k, v) ∷ n) u.0,
        beq_comm j k,
      )

  -- A new key goes to the end.
  pub set-new : (k : K) (v : V) (m : List (K × V)) → get k m ≡ none → set k v m ≡ m ++ (k, v) ∷ []
  unfolding get set
  set-new k v [] h = refl
  set-new k v ((j, w) ∷ m) h = ground (arith, set-new k v m)

  of_entries-append :
      (m entries : List (K × V))
      → HasUniqueKeys (m ++ entries)
      → of_entries m entries ≡ m ++ entries
  unfolding of_entries
  of_entries-append m [] u = sym (append-nil m)
  of_entries-append m ((k, v) ∷ entries) u =
      let e = append_assoc m ((k, v) ∷ []) entries in
      let n = set-new k v m (HasUniqueKeys-append m k v entries u) in
      rw n (of_entries-append (m ++ (k, v) ∷ []) entries (rw e u) ∙ e)

  -- The map of the entries of a map is that map.
  pub of_entries-HasUniqueKeys : (m : List (K × V)) → HasUniqueKeys m → of_entries [] m ≡ m
  of_entries-HasUniqueKeys m u = of_entries-append [] m u

  -- A key that is not there is not taken out.
  pub remove-none : (k : K) (m : List (K × V)) → get k m ≡ none → remove k m ≡ m
  unfolding get remove
  remove-none k [] h = refl
  remove-none k ((j, w) ∷ m) h = ground (arith, remove-none k m)

  All-get-skip :
      (k : K) (v : V) (m entries : List (K × V))
      → get k m ≡ none
      → All (λ e. get e.0 m ≡ some e.1) entries
      → All (λ e. get e.0 ((k, v) ∷ m) ≡ some e.1) entries
  unfolding get
  All-get-skip k v m [] h a = tt
  All-get-skip k v m ((j, w) ∷ entries) h a =
      ground (arith, All-get-skip k v m entries h a.1, e.beq_iff k j)

  -- Each entry of a map is the one that is found under its key.
  pub All-get : (m : List (K × V)) → HasUniqueKeys m → All (λ e. get e.0 m ≡ some e.1) m
  unfolding get
  All-get [] u = tt
  All-get ((k, v) ∷ m) u = (simp (get, beq_refl), All-get-skip k v m m u.0 (All-get m u.1))
