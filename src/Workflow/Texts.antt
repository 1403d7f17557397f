-- ===== src/Workflow/Texts.antt =====
-- The patterns of workflow.ts, as tests on the codes of a text.
use trade_gate.Prelude.{
  codes, ℕ, ◌-◌, Bool, true, false, ◌&&◌, ◌||◌, String, List, [], ◌∷◌, leb, ◌==◌, nat_eq, string_eq,
  length, take, drop, all, any, contains,
}

unfoldable pub is_digit : ℕ → Bool
is_digit c = leb b'0' c && leb c b'9'

unfoldable pub is_lower : ℕ → Bool
is_lower c = leb b'a' c && leb c b'z'

unfoldable pub is_upper : ℕ → Bool
is_upper c = leb b'A' c && leb c b'Z'

abbrev same_codes : List ℕ → List ℕ → Bool
same_codes [] [] = true
same_codes (a ∷ as_) (b ∷ bs) = a == b && same_codes as_ bs
same_codes _ _ = false

-- `/^[A-Z0-9]{2,20}USDT$/`
unfoldable pub is_symbol : String → Bool
unfolding is_digit is_upper
is_symbol s =
    let cs = codes s in
    let n = length cs - 4 in
    leb 2 n
    && leb n 20
    && all (λ c. is_upper c || is_digit c) (take n cs)
    && same_codes (drop n cs) (codes "USDT")

-- `/^[a-z][a-z0-9_]{1,39}$/`
unfoldable pub is_strategy_id : String → Bool
unfolding is_digit is_lower
is_strategy_id s = elim (codes s) [
  | [] ↦ false
  | c ∷ cs ↦
      is_lower c
      && leb 1 (length cs)
      && leb (length cs) 39
      && all (λ d. is_lower d || is_digit d || d == b'_') cs
]

unfoldable pub is_plain : ℕ → Bool
unfolding is_digit is_lower is_upper
is_plain c = is_upper c || is_lower c || is_digit c

-- `/^[A-Za-z0-9][A-Za-z0-9._:/-]{0,79}$/`
unfoldable pub is_model_id : String → Bool
unfolding is_plain
is_model_id s = elim (codes s) [
  | [] ↦ false
  | c ∷ cs ↦
      is_plain c && leb (length cs) 79 && all (λ d. is_plain d || contains d (codes "._:/-")) cs
]

-- `/[\r\n]/`
unfoldable pub has_line_break : String → Bool
has_line_break s = any (λ c. c == 10 || c == 13) (codes s)
