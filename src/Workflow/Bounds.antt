-- ===== src/Workflow/Bounds.antt =====
-- The bounds of the numeric settings.
use trade_gate.Prelude.{◌≤◌, ◌≡◌, true, String, string_eq}
use trade_gate.Numbers.{Numbers}
use trade_gate.Workflow.Types.{Workflow}
use trade_gate.Workflow.Fields.{Patch}

-- What the code relies on of the floats: finite ones are ordered, `Math.min`, `Math.max` and
-- `Math.round` respect the order, and `Math.round` leaves whole numbers as they are.
pub record NumberLaws (N : Numbers) : Type 0 where
  pub least_below :
      (a b : N.Number) → N.is_finite b ≡ true → N.is_finite a ≡ true → N.le (N.least a b) a ≡ true
  pub least_above :
      (a b c : N.Number) → N.le c a ≡ true → N.le c b ≡ true → N.le c (N.least a b) ≡ true
  pub greatest_above :
      (a b : N.Number)
      → N.is_finite a ≡ true
      → N.is_finite b ≡ true
      → N.le a (N.greatest a b) ≡ true
  pub greatest_finite :
      (a b : N.Number)
      → N.is_finite a ≡ true
      → N.is_finite b ≡ true
      → N.is_finite (N.greatest a b) ≡ true
  pub round_le : (a b : N.Number) → N.le a b ≡ true → N.le (N.round a) (N.round b) ≡ true

module _ (N : Numbers) where
  open N use {Number, of_text, le, round, is_finite}

  -- The texts of the source read as finite whole numbers, the first at most the second.
  abbrev pub AreBounds : String → String → Type 0
  AreBounds lo hi =
      (is_finite (of_text lo) ≡ true)
      × (is_finite (of_text hi) ≡ true)
      × (round (of_text lo) ≡ of_text lo)
      × (round (of_text hi) ≡ of_text hi)
      × (le (of_text lo) (of_text hi) ≡ true)

  -- That of every numeric bound of `WORKFLOW_BOUNDS` which is a whole number.
  pub record Literals : Type 0 where
    pub info : AreBounds "120000" "21600000"
    pub leverage : AreBounds "1" "10"
    pub threads : AreBounds "1" "6"
    pub opens : AreBounds "1" "12"
    pub heartbeat : AreBounds "300000" "14400000"
    pub cap : AreBounds "0" "5000"

  abbrev pub Between : String → String → Number → Type 0
  Between lo hi x = (le (of_text lo) x ≡ true) × (le x (of_text hi) ≡ true)

  -- Each numeric setting that is a whole number is within its bounds.
  abbrev pub IsBounded : Workflow N → Type 0
  IsBounded w =
      Between "120000" "21600000" w.info_every_ms
      × Between "1" "10" w.leverage
      × Between "1" "6" w.max_open_threads
      × Between "1" "12" w.max_opens_per_day
      × Between "300000" "14400000" w.heartbeat_every_ms
      × Between "0" "5000" w.daily_judgment_cap
      × ((1 ≤ w.invalidation_confirm_bars) × (w.invalidation_confirm_bars ≤ 5))
      × ((1 ≤ w.screener_max_symbols) × (w.screener_max_symbols ≤ 300))
      × ((1 ≤ w.watchlist_max) × (w.watchlist_max ≤ 300))
