-- ===== src/Runtime/Settings.antt =====
-- `setWorkflow` of runtime.ts: a patch of the settings, and what follows from a change.
pub mod Sound
use trade_gate.Prelude.{
  ℕ, Bool, true, false, not, ◌&&◌, ◌||◌, Option, none, some, String, List, [], ◌∷◌, map, filter,
  any, codes, ◌==◌, string_eq, nat_eq, list_eq, pair_eq, if◌then◌else◌,
}
use mathlib.Core.Bool.{Bool-discrete, decide}
use trade_gate.Dict
use trade_gate.Numbers.{Numbers}
use trade_gate.Threads.Types.{Backend, paper, demo, cli, agent_mcp, MarginMode, cross, isolated}
use trade_gate.Workflow.Values.{Language}
use trade_gate.Workflow.Types.{
  Workflow, BrainKind, pi_brain, claude_brain, codex_brain, stub_brain, AgentCliKind, claude_agent,
  codex_agent, ScanMode, triggered, every_close, Universe, watchlist_and_whitelist, top_volume,
  explicit, ApplyMode, propose, auto,
}
use trade_gate.Workflow.Fields.{Patch, Patched}
use trade_gate.Workflow.Patch.{apply_workflow_patch}

-- What `JSON.stringify` tells apart of a setting. `numeral` is the text of a number.
pub data Setting : Type 0 where
  nothing : Setting
  flag : Bool → Setting
  count : ℕ → Setting
  numeral word : String → Setting
  words : List String → Setting
  table : List (String × String) → Setting

-- `JSON.stringify(a) === JSON.stringify(b)`
abbrev pub setting_beq : Setting → Setting → Bool
setting_beq nothing nothing = true
setting_beq (flag a) (flag b) = decide (Bool-discrete a b)
setting_beq (count a) (count b) = a == b
setting_beq (numeral a) (numeral b) = a == b
setting_beq (word a) (word b) = a == b
setting_beq (words a) (words b) = a == b
setting_beq (table a) (table b) = a == b
setting_beq _ _ = false

abbrev pub backend_name : Backend → String
backend_name paper = "paper"
backend_name demo = "demo"
backend_name cli = "cli"
backend_name agent_mcp = "agent_mcp"

abbrev brain_name : BrainKind → String
brain_name pi_brain = "pi"
brain_name claude_brain = "claude"
brain_name codex_brain = "codex"
brain_name stub_brain = "stub"

abbrev agent_name : AgentCliKind → String
agent_name claude_agent = "claude"
agent_name codex_agent = "codex"

abbrev margin_name : MarginMode → String
margin_name cross = "cross"
margin_name isolated = "isolated"

abbrev scan_name : ScanMode → String
scan_name triggered = "triggered"
scan_name every_close = "every_close"

abbrev universe_name : Universe → String
universe_name watchlist_and_whitelist = "watchlist+whitelist"
universe_name top_volume = "top_volume"
universe_name explicit = "explicit"

abbrev apply_name : ApplyMode → String
apply_name propose = "propose"
apply_name auto = "auto"

abbrev word_or_nothing : Option String → Setting
word_or_nothing none = nothing
word_or_nothing (some s) = word s

-- `prefix` starts a list of codes.
abbrev starts_with : List ℕ → List ℕ → Bool
starts_with [] xs = true
starts_with (p ∷ ps) [] = false
starts_with (p ∷ ps) (x ∷ xs) = p == x && starts_with ps xs

-- `String(k).startsWith('screener_') || k === 'paused'`
abbrev moves_radar : String → Bool
moves_radar k = starts_with (codes "screener_") (codes k) || k == "paused"

-- The events that follow a change, apart from what is written and shown.
pub data SettingEffect : Type 0 where
  kline_scheduled info_scheduled radar_rescheduled : SettingEffect

module _ (N : Numbers) where
  -- What is not finite prints as `null`.
  abbrev numeral_of : N.Number → Setting
  numeral_of x = if N.is_finite x then numeral (N.to_text x) else nothing

  -- The settings by their keys.
  abbrev pub settings : Workflow N → List (String × Setting)
  settings w =
      ("watchlist", words w.watchlist)
      ∷ ("timeframe", word w.timeframe)
      ∷ ("info_every_ms", numeral_of w.info_every_ms)
      ∷ ("risk_pct", word w.risk_pct)
      ∷ ("leverage", numeral_of w.leverage)
      ∷ ("margin_mode", word (margin_name w.margin_mode))
      ∷ ("max_open_threads", numeral_of w.max_open_threads)
      ∷ ("max_opens_per_day", numeral_of w.max_opens_per_day)
      ∷ ("daily_loss_stop_pct", word w.daily_loss_stop_pct)
      ∷ ("auto_approve", flag w.auto_approve)
      ∷ ("brain", word (brain_name w.brain))
      ∷ ("cheap_brain", word (brain_name w.cheap_brain))
      ∷ ("brain_model", word_or_nothing w.brain_model)
      ∷ ("cheap_brain_model", word_or_nothing w.cheap_brain_model)
      ∷ ("playbook_text", word w.playbook_text)
      ∷ ("paused", flag w.paused)
      ∷ ("narrate", flag w.narrate)
      ∷ ("chat_requires_approval", flag w.chat_requires_approval)
      ∷ ("scan_mode", word (scan_name w.scan_mode))
      ∷ ("heartbeat_every_ms", numeral_of w.heartbeat_every_ms)
      ∷ ("watch_only", words w.watch_only)
      ∷ ("invalidation_confirm_bars", count w.invalidation_confirm_bars)
      ∷ ("invalidation_buffer_atr", numeral_of w.invalidation_buffer_atr)
      ∷ ("fast_move_pct", word w.fast_move_pct)
      ∷ ("review_every_close", flag w.review_every_close)
      ∷ ("execution", word (backend_name w.execution))
      ∷ ("exec_agent_cli", word (agent_name w.exec_agent_cli))
      ∷ ("exec_agent_model", word_or_nothing w.exec_agent_model)
      ∷ ("daily_judgment_cap", numeral_of w.daily_judgment_cap)
      ∷ ("screener_enabled", flag w.screener_enabled)
      ∷ ("screener_short_every_ms", numeral_of w.screener_short_every_ms)
      ∷ ("screener_swing_every_ms", numeral_of w.screener_swing_every_ms)
      ∷ ("screener_universe", word (universe_name w.screener_universe))
      ∷ ("screener_symbols", words w.screener_symbols)
      ∷ ("screener_whitelist", words w.screener_whitelist)
      ∷ ("screener_max_symbols", count w.screener_max_symbols)
      ∷ ("screener_use_brain", flag w.screener_use_brain)
      ∷ ("screener_apply", word (apply_name w.screener_apply))
      ∷ ("screener_expectancy", flag w.screener_expectancy)
      ∷ ("watchlist_max", count w.watchlist_max)
      ∷ ("cli_commands", table w.cli_commands)
      ∷ ("active_strategies", words w.active_strategies)
      ∷ ("updated_at", count w.updated_at)
      ∷ []

  -- `this.workflow[k] ?? null`
  unfoldable pub setting_of : Workflow N → String → Setting
  setting_of w k = elim (Dict.get k (settings w)) [ none ↦ nothing | some s ↦ s ]

  -- The test of `changedKeys`, and the keys that pass it.
  unfoldable pub has_changed : Workflow N → Workflow N → String → Bool
  unfolding setting_of
  has_changed current next k =
      not (k == "updated_at") && not (setting_beq (setting_of next k) (setting_of current k))

  unfoldable pub changed_keys : Workflow N → Workflow N → List String
  unfolding has_changed
  changed_keys current next = filter (has_changed current next) (map (λ e. e.0) (settings next))

  -- `if (b) effect`, before the effects that follow.
  abbrev effect_if : Bool → SettingEffect → List SettingEffect → List SettingEffect
  effect_if b e rest = if b then e ∷ rest else rest

  -- `===` between numbers, which no `NaN` passes.
  abbrev same : N.Number → N.Number → Bool
  same a b = N.le a b && N.le b a

  unfoldable pub change_effects : Workflow N → Workflow N → List String → List SettingEffect
  change_effects current next changed =
      effect_if (not (next.timeframe == current.timeframe)) kline_scheduled (
        effect_if (not (same next.info_every_ms current.info_every_ms)) info_scheduled
          (effect_if (any moves_radar changed) radar_rescheduled []))

  -- The settings in memory and in the store.
  pub record Held : Type 0 where
    pub workflow : Workflow N
    pub saved : Workflow N

  pub record SetResult : Type 0 where
    pub held : Held
    pub errors : List String
    pub effects : List SettingEffect

  -- `execution` names the backend that runs.
  abbrev pub on_backend : Backend → Workflow N → Workflow N
  on_backend kind w = record w { execution = kind }

  -- From `changedKeys` on.
  unfoldable pub set_changed : Workflow N → List String → List String → Held → SetResult
  unfolding change_effects
  set_changed next [] errors held = record { held = held; errors = errors; effects = [] }
  set_changed next (k ∷ ks) errors held = record {
    held = record { workflow = next; saved = next };
    errors = errors;
    effects = change_effects held.workflow next (k ∷ ks);
  }

  unfoldable pub set_workflow : Language N → Backend → Patch N → ℕ → Held → SetResult
  unfolding set_changed
  set_workflow L kind patch now held =
      let patched : Patched N = apply_workflow_patch N L held.workflow patch now in
      let next : Workflow N = on_backend kind patched.next in
      set_changed next (changed_keys held.workflow next) patched.errors held
