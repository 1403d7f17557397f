-- ===== src/Workflow/Lists.antt =====
-- The lists of the settings: the watchlist within its maximum, and what is only watched within it.
use trade_gate.Prelude.{
  ℕ, ◌≤◌, ◌≡◌, refl, Bool, true, some, String, List, [], ◌∷◌, arith, All, all, string_eq, nat_eq,
  contains, filter, take, length, length-take,
}
use trade_gate.Numbers.{Numbers}
use trade_gate.Workflow.Values.{Value, Language}
use trade_gate.Workflow.Types.{Workflow}
use trade_gate.Workflow.Fields.{Patch, Patched, update, read_count}
use trade_gate.Workflow.Others.{
  OnLists, other_fields-Keeps, screener_fields-Keeps, last_fields-Keeps,
}
use trade_gate.Workflow.Kept.{Keeps, field-Keeps, other-Keeps, run_all-Keeps, patch_commands-Keeps}
use trade_gate.Workflow.Readers.{
  read_watchlist, set_watchlist, set_watchlist_max, set_watch_only, keep_watched,
}
use trade_gate.Workflow.Patch.{
  first_field, other_fields, screener_fields, list_fields, last_fields, run_all, patch_lists,
  patch_rest, apply_workflow_patch,
}

all-filter : (p : String → Bool) (xs : List String) → all p (filter p xs) ≡ true
all-filter p [] = refl
all-filter p (x ∷ xs) = ground (arith, all-filter p xs)

-- At least one symbol, and no more than the maximum allows.
abbrev pub IsWithin : List String → List String → ℕ → Type 0
IsWithin list only most = (1 ≤ length list) × (length list ≤ most)

-- Everything that is only watched is on the list.
abbrev pub Watches : List String → List String → ℕ → Type 0
Watches list only most = all (λ s. contains s list) only ≡ true

abbrev pub IsListed : (N : Numbers) → Workflow N → Type 0
IsListed N = OnLists N IsWithin

module _ (N : Numbers) (L : Language N) where
  open N use {Number}

  length-take_max :
      (n : ℕ) (xs : List String)
      → 1 ≤ n
      → 1 ≤ length xs
      → (1 ≤ length (take n xs)) × (length (take n xs) ≤ n)
  length-take_max n xs h k =
      (omega (arith, length-take n xs, h, k), omega (arith, length-take n xs, h, k))

  read_watchlist-some :
      (v : Value N) (list : List String) → read_watchlist N L v ≡ some list → 1 ≤ length list
  unfolding read_watchlist
  read_watchlist-some v list e = ground (arith, e)

  pub read_count-some :
      (lo hi : ℕ) (v : Value N) (n : ℕ) → read_count N L lo hi v ≡ some n → (lo ≤ n) × (n ≤ hi)
  unfolding read_count
  read_count-some lo hi v n e = ground (arith, e)

  set_watchlist-IsListed :
      (v : Value N) (list : List String)
      → read_watchlist N L v ≡ some list
      → (w : Workflow N) → IsListed N w
      → IsListed N (set_watchlist N L list w)
  unfolding set_watchlist
  set_watchlist-IsListed v list e w p =
      length-take_max w.watchlist_max list (omega (arith, p.0, p.1)) (read_watchlist-some v list e)

  set_watch_only-IsListed :
      (texts : List String) (w : Workflow N)
      → IsListed N w
      → IsListed N (set_watch_only N L texts w)
  unfolding set_watch_only
  set_watch_only-IsListed texts w p = p

  set_watchlist_max-IsListed :
      (v : Value N) (n : ℕ)
      → read_count N L 1 300 v ≡ some n
      → (w : Workflow N) → IsListed N w
      → IsListed N (set_watchlist_max N L n w)
  unfolding set_watchlist_max
  set_watchlist_max-IsListed v n e w p =
      ground (arith, length-take_max n w.watchlist (read_count-some 1 300 v n e).0 p.0)

  list_fields-Keeps : All (Keeps N L (IsListed N)) (list_fields N L)
  list_fields-Keeps = (
    field-Keeps N L (IsListed N) _ _ _ (set_watchlist_max-IsListed),
    (other-Keeps N L (IsListed N) _ _ _ (set_watch_only-IsListed), tt),
  )

  keep_watched-Watches : (w : Workflow N) → OnLists N Watches (keep_watched N L w)
  unfolding keep_watched
  keep_watched-Watches w = all-filter (λ s. contains s w.watchlist) w.watch_only

  patch_lists-IsListed : Keeps N L (IsListed N) (patch_lists N L)
  unfolding patch_lists update keep_watched
  patch_lists-IsListed patch st h =
      let one = first_field N L patch st in
      let two = run_all N L (other_fields N L) patch one in
      let three = run_all N L (screener_fields N L) patch two in
      let h1 = field-Keeps N L (IsListed N) _ _ _ set_watchlist-IsListed patch st h in
      let h2 =
        run_all-Keeps N L (IsListed N) (other_fields N L) (other_fields-Keeps N L IsWithin) patch
          one h1 in
      let h3 =
        run_all-Keeps N L (IsListed N) (screener_fields N L) (screener_fields-Keeps N L IsWithin)
          patch two h2 in
      run_all-Keeps N L (IsListed N) (list_fields N L) list_fields-Keeps patch three h3

  patch_lists-Watches :
      (patch : Patch N) (st : Patched N) → OnLists N Watches (patch_lists N L patch st).next
  unfolding patch_lists update
  patch_lists-Watches patch st =
      let one = run_all N L (other_fields N L) patch (first_field N L patch st) in
      keep_watched-Watches
        (run_all N L (list_fields N L) patch (run_all N L (screener_fields N L) patch one)).next

  patch_rest-Keeps :
      (Q : List String → List String → ℕ → Type 0) (current : Workflow N) (now : ℕ)
      → Keeps N L (OnLists N Q) (patch_rest N L current now)
  unfolding patch_rest update
  patch_rest-Keeps Q current now patch st h =
      patch_commands-Keeps N L (OnLists N Q) current (λ commands w p. p) patch
        (run_all N L (last_fields N L) patch st)
        (run_all-Keeps N L (OnLists N Q) (last_fields N L) (last_fields-Keeps N L Q) patch st h)

  -- Whatever the patch: if the watchlist holds a symbol and no more than its maximum, so does that
  -- of the patched settings, within the patched maximum, and every symbol that they only watch is
  -- on it.
  pub apply_workflow_patch-IsListed :
      (current : Workflow N) (patch : Patch N) (now : ℕ)
      → IsListed N current
      → (IsListed N (apply_workflow_patch N L current patch now).next
          × OnLists N Watches (apply_workflow_patch N L current patch now).next)
  unfolding apply_workflow_patch
  apply_workflow_patch-IsListed current patch now h =
      let start : Patched N = record { next = current; errors = [] } in
      let listed = patch_lists N L patch start in
      (
        patch_rest-Keeps IsWithin current now patch listed (patch_lists-IsListed patch start h),
        patch_rest-Keeps Watches current now patch listed (patch_lists-Watches patch start),
      )
