-- ===== src/Prelude/Sort.antt =====
-- `xs.sort((a, b) => a.key - b.key)`: the stable sort of the language, by a numeric key.
use Prim.Native.Nat.{ℕ, ◌≤◌, ◌<◌}
use mathlib.Core.Path.{◌≡◌, refl, ◌∙◌}
use mathlib.Core.Bool.{Bool}
use mathlib.Core.Option.{none}
use mathlib.Core.List.{List, [], ◌∷◌}
use native.Mathlib.Omega.{arith}
use trade_gate.Prelude.Tests.{leb, nat_beq, if◌then◌else◌}
use trade_gate.Prelude.Lists.{any, find, All}

module _ {ℓ} {A : Type ℓ} (key : A → ℕ) where
  -- Before the first element with a key that is not smaller.
  unfoldable pub insert_by : A → List A → List A
  insert_by a [] = a ∷ []
  insert_by a (x ∷ xs) = if leb (key a) (key x) then a ∷ x ∷ xs else x ∷ insert_by a xs

  unfoldable pub sort_by : List A → List A
  unfolding insert_by
  sort_by [] = []
  sort_by (x ∷ xs) = insert_by x (sort_by xs)

  -- Each key is at most the ones behind it.
  abbrev pub IsSortedBy : List A → Type 0
  IsSortedBy [] = Unit
  IsSortedBy (x ∷ xs) = All (λ y. key x ≤ key y) xs × IsSortedBy xs

module _ {ℓ} {A : Type ℓ} (key : A → ℕ) where
  pub All-le_trans :
      (m n : ℕ) (xs : List A) → m ≤ n → All (λ y. n ≤ key y) xs → All (λ y. m ≤ key y) xs
  All-le_trans m n [] h a = tt
  All-le_trans m n (x ∷ xs) h a = (omega arith, All-le_trans m n xs h a.1)

  All-insert_by :
      (n : ℕ) (a : A) (xs : List A)
      → n ≤ key a
      → All (λ y. n ≤ key y) xs
      → All (λ y. n ≤ key y) (insert_by key a xs)
  unfolding insert_by
  All-insert_by n a [] h b = (h, tt)
  All-insert_by n a (x ∷ xs) h b = ground (arith, All-insert_by n a xs h b.1)

  insert_by-IsSortedBy :
      (a : A) (xs : List A) → IsSortedBy key xs → IsSortedBy key (insert_by key a xs)
  unfolding insert_by
  insert_by-IsSortedBy a [] s = (tt, tt)
  insert_by-IsSortedBy a (x ∷ xs) s = ground (
    arith,
    insert_by-IsSortedBy a xs s.1,
    All-insert_by (key x) a xs,
    All-le_trans (key a) (key x) xs,
  )

  pub sort_by-IsSortedBy : (xs : List A) → IsSortedBy key (sort_by key xs)
  unfolding sort_by
  sort_by-IsSortedBy [] = tt
  sort_by-IsSortedBy (x ∷ xs) = insert_by-IsSortedBy x (sort_by key xs) (sort_by-IsSortedBy xs)

  any-insert_by : (p : A → Bool) (a : A) (xs : List A) → any p (insert_by key a xs) ≡ any p (a ∷ xs)
  unfolding insert_by
  any-insert_by p a [] = refl
  any-insert_by p a (x ∷ xs) = ground (arith, any-insert_by p a xs)

  -- Sorting keeps what an element test finds.
  pub any-sort_by : (p : A → Bool) (xs : List A) → any p (sort_by key xs) ≡ any p xs
  unfolding sort_by
  any-sort_by p [] = refl
  any-sort_by p (x ∷ xs) = ground (arith, any-insert_by p x (sort_by key xs), any-sort_by p xs)

  All-insert {κ} :
      (P : A → Type κ) (a : A) (xs : List A) → P a → All P xs → All P (insert_by key a xs)
  unfolding insert_by
  All-insert P a [] h b = (h, tt)
  All-insert P a (x ∷ xs) h b = ground (arith, All-insert P a xs h b.1)

  pub All-sort_by {κ} : (P : A → Type κ) (xs : List A) → All P xs → All P (sort_by key xs)
  unfolding sort_by
  All-sort_by P [] b = tt
  All-sort_by P (x ∷ xs) b = All-insert P x (sort_by key xs) b.0 (All-sort_by P xs b.1)

-- The order does not change which element is the first with a given key.
module _ {ℓ} {A : Type ℓ} (key : A → ℕ) where
  abbrev pub has_key : ℕ → A → Bool
  has_key t a = nat_beq (key a) t

  -- Every key is new among the elements behind it.
  abbrev pub HasUniqueKeysBy : List A → Type ℓ
  HasUniqueKeysBy [] = Unit
  HasUniqueKeysBy (x ∷ xs) = (find (has_key (key x)) xs ≡ none) × HasUniqueKeysBy xs

  abbrev pub Increases : List A → Type 0
  Increases [] = Unit
  Increases (x ∷ xs) = All (λ y. key x < key y) xs × Increases xs

module _ {ℓ} {A : Type ℓ} (key : A → ℕ) where
  find-insert_by :
      (t : ℕ) (a : A) (xs : List A)
      → find (has_key key t) (insert_by key a xs) ≡ find (has_key key t) (a ∷ xs)
  unfolding insert_by
  find-insert_by t a [] = refl
  find-insert_by t a (x ∷ xs) = ground (arith, find-insert_by t a xs)

  pub find-sort_by :
      (t : ℕ) (xs : List A) → find (has_key key t) (sort_by key xs) ≡ find (has_key key t) xs
  unfolding sort_by
  find-sort_by t [] = refl
  find-sort_by t (x ∷ xs) = ground (arith, find-insert_by t x (sort_by key xs), find-sort_by t xs)

  insert_by-HasUniqueKeysBy :
      (a : A) (xs : List A)
      → find (has_key key (key a)) xs ≡ none
      → HasUniqueKeysBy key xs
      → HasUniqueKeysBy key (insert_by key a xs)
  unfolding insert_by
  insert_by-HasUniqueKeysBy a [] h u = (refl, tt)
  insert_by-HasUniqueKeysBy a (x ∷ xs) h u =
      ground (arith, insert_by-HasUniqueKeysBy a xs, find-insert_by (key x) a xs)

  sort_by-HasUniqueKeysBy :
      (xs : List A) → HasUniqueKeysBy key xs → HasUniqueKeysBy key (sort_by key xs)
  unfolding sort_by
  sort_by-HasUniqueKeysBy [] u = tt
  sort_by-HasUniqueKeysBy (x ∷ xs) u =
      insert_by-HasUniqueKeysBy x (sort_by key xs) (find-sort_by (key x) xs ∙ u.0)
        (sort_by-HasUniqueKeysBy xs u.1)

  All-lt :
      (m : ℕ) (xs : List A)
      → find (has_key key m) xs ≡ none
      → All (λ y. m ≤ key y) xs
      → All (λ y. m < key y) xs
  All-lt m [] h a = tt
  All-lt m (x ∷ xs) h a = ground (arith, All-lt m xs)

  Increases-of_unique :
      (xs : List A) → HasUniqueKeysBy key xs → IsSortedBy key xs → Increases key xs
  Increases-of_unique [] u s = tt
  Increases-of_unique (x ∷ xs) u s = (All-lt (key x) xs u.0 s.0, Increases-of_unique xs u.1 s.1)

  pub sort_by-Increases : (xs : List A) → HasUniqueKeysBy key xs → Increases key (sort_by key xs)
  sort_by-Increases xs u =
      Increases-of_unique _ (sort_by-HasUniqueKeysBy xs u) (sort_by-IsSortedBy key xs)
