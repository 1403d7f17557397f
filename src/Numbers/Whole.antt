-- ===== src/Numbers/Whole.antt =====
-- Whole numbers in the place of the floats, for tests: texts are read by a function of the test.
use trade_gate.Prelude.{
  List, [], ◌∷◌, string_eq, if◌then◌else◌, ℕ, ◌+◌, ◌-◌, ◌*◌, ◌/◌, min, max, true, not, some, String,
  nat_eq, ◌==◌, ltb, leb,
}
use trade_gate.Numbers.{Numbers}

-- Reads the texts of a table, and any other as zero.
abbrev pub look_up : List (String × ℕ) → String → ℕ
look_up [] s = 0
look_up ((t, n) ∷ m) s = if t == s then n else look_up m s

abbrev pub whole : (String → ℕ) → Numbers
whole read = record {
  Number = ℕ;
  of_text = read;
  lt = ltb;
  le = leb;
  add = λ a b. a + b;
  sub = λ a b. a - b;
  mul = λ a b. a * b;
  div = λ a b. a / b;
  abs = λ a. a;
  least = λ a b. min a b;
  greatest = λ a b. max a b;
  round = λ a. a;
  floor = λ a. a;
  is_finite = λ a. true;
  is_truthy = λ a. not (a == 0);
  to_count = λ a. some a;
  of_count = λ a. a;
  to_text = λ a. "";
  to_fixed = λ a. "";
  fixed_to = λ d a. "";
}
