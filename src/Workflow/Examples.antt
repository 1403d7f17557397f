-- ===== src/Workflow/Examples.antt =====
-- The theorems on workflow.ts at the default settings and a patch, with whole numbers for the
-- floats and plain texts, and tests of the patterns.
use trade_gate.Prelude.{
  codes, ℕ, ◌≡◌, refl, true, false, some, [], ◌∷◌, arith, Option, List, String, string_eq, nat_eq,
  length,
}
use trade_gate.Dict
use trade_gate.Numbers.{Numbers}
use trade_gate.Numbers.Whole.{look_up, whole}
use trade_gate.Workflow.Values.{
  Value, null, number, text, array, object, end, item, close, entry, Language,
}
use trade_gate.Workflow.Texts.{
  is_symbol, is_strategy_id, is_model_id, has_line_break, is_digit, is_upper, is_lower, is_plain,
}
use trade_gate.Workflow.Types.{Workflow, default_workflow, cli_names}
use trade_gate.Workflow.Fields.{Patch}
use trade_gate.Workflow.Readers.{cli_command_error}
use trade_gate.Workflow.Patch.{apply_workflow_patch}
use trade_gate.Workflow.Others.{OnLists}
use trade_gate.Workflow.Load.{load_commands, load_commands-good, AreGood}
use trade_gate.Workflow.Lists.{IsListed, Watches, apply_workflow_patch-IsListed}

patterns :
    is_symbol "BTCUSDT"
      ∷ is_symbol "AUSDT"
      ∷ is_symbol "btcUSDT"
      ∷ is_strategy_id "breakout_retest"
      ∷ is_strategy_id "x"
      ∷ is_model_id "zai/glm-5.3"
      ∷ is_model_id "-a"
      ∷ has_line_break "a b"
      ∷ []
    ≡ true ∷ false ∷ false ∷ true ∷ false ∷ true ∷ false ∷ false ∷ []
unfolding is_symbol is_strategy_id is_model_id has_line_break is_digit is_upper is_lower is_plain
patterns = refl

abbrev literals : List (String × ℕ)
literals =
    ("1", 1)
    ∷ ("3", 3)
    ∷ ("4", 4)
    ∷ ("6", 6)
    ∷ ("10", 10)
    ∷ ("12", 12)
    ∷ ("300", 300)
    ∷ ("5000", 5_000)
    ∷ ("120000", 120_000)
    ∷ ("300000", 300_000)
    ∷ ("1800000", 1_800_000)
    ∷ ("14400000", 14_400_000)
    ∷ ("21600000", 21_600_000)
    ∷ []

abbrev floats : Numbers
floats = whole (look_up literals)

abbrev plain_text : Value floats → String
plain_text (text s) = s
plain_text _ = ""

abbrev plain_number : Value floats → ℕ
plain_number (number n) = n
plain_number _ = 0

abbrev language : Language floats
language = record {
  to_text = plain_text;
  to_number = plain_number;
  trim = λ s. s;
  to_upper_case = λ s. s;
  length_of = λ s. length (codes s);
  slice_to = λ n s. s;
}

abbrev commands : List (String × String)
commands = ("claude", "claude") ∷ ("codex", "codex") ∷ ("pi", "pi") ∷ []

abbrev current : Workflow floats
current = default_workflow floats "" commands

-- A shorter watchlist, one symbol of it only to be watched, a leverage out of bounds, and a bad cap.
abbrev patch : Patch floats
patch =
    ("watchlist", array (item (text "BTCUSDT") (item (text "ETHUSDT") end)))
    ∷ ("watchlist_max", number 1)
    ∷ ("watch_only", array (item (text "BTCUSDT") end))
    ∷ ("leverage", number 100)
    ∷ ("paused", text "yes")
    ∷ []

apply_workflow_patch-IsListed_example :
    IsListed floats (apply_workflow_patch floats language current patch 1).next
    × OnLists floats Watches (apply_workflow_patch floats language current patch 1).next
apply_workflow_patch-IsListed_example =
    apply_workflow_patch-IsListed floats language current patch 1 (omega arith, omega arith)

abbrev default_values : List (String × Value floats)
default_values = ("claude", text "claude") ∷ ("codex", text "codex") ∷ ("pi", text "pi") ∷ []

-- A command that is no text, and a good one.
abbrev stored : Option (Value floats)
stored = some (object (entry "claude" null (entry "codex" (text "codexproxy") close)))

load_commands-good_example :
    AreGood floats language cli_names (load_commands floats language default_values stored)
unfolding cli_command_error has_line_break Dict.get
load_commands-good_example =
    load_commands-good floats language default_values stored (refl, (refl, (refl, tt)))
