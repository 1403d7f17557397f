-- ===== src/Workflow/Patch.antt =====
-- `applyWorkflowPatch`: the handlers of its keys, in the order of the source.
use trade_gate.Prelude.{ℕ, List, [], ◌∷◌, string_eq, nat_eq}
use trade_gate.Numbers.{Numbers}
use trade_gate.Workflow.Values.{as_boolean, as_text, Language}
use trade_gate.Workflow.Types.{
  Workflow, brains, backends, agent_clis, margin_modes, scan_modes, universes, apply_modes,
}
use trade_gate.Workflow.Fields.{
  Patch, Patched, Handler, update, field, clamp_num, read_count, read_interval, read_choice,
  read_model, read_symbols, rounded_to,
}
use trade_gate.Workflow.Readers.{
  read_watchlist, read_timeframe, read_watch_only, read_strategies, patch_commands, set_watchlist,
  set_watchlist_max, set_watch_only, keep_watched,
}

module _ (N : Numbers) (L : Language N) where
  open N use {Number, round, to_text}

  -- From `timeframe` up to the invalidation fields.
  abbrev pub other_fields : List (Handler N)
  other_fields =
      field N L "timeframe" (read_timeframe N L) (λ x w. record w { timeframe = x })
      ∷ field N L "info_every_ms" (clamp_num N L "120000" "21600000")
          (λ x w. record w { info_every_ms = round x })
      ∷ field N L "risk_pct" (clamp_num N L "0.1" "2")
          (λ x w. record w { risk_pct = to_text (rounded_to N L "100" x) })
      ∷ field N L "leverage" (clamp_num N L "1" "10") (λ x w. record w { leverage = round x })
      ∷ field N L "margin_mode" (read_choice N L margin_modes) (λ x w. record w { margin_mode = x })
      ∷ field N L "max_open_threads" (clamp_num N L "1" "6")
          (λ x w. record w { max_open_threads = round x })
      ∷ field N L "max_opens_per_day" (clamp_num N L "1" "12")
          (λ x w. record w { max_opens_per_day = round x })
      ∷ field N L "daily_loss_stop_pct" (clamp_num N L "0.5" "20")
          (λ x w. record w { daily_loss_stop_pct = to_text (rounded_to N L "10" x) })
      ∷ field N L "auto_approve" (as_boolean N) (λ x w. record w { auto_approve = x })
      ∷ field N L "brain" (read_choice N L brains) (λ x w. record w { brain = x })
      ∷ field N L "cheap_brain" (read_choice N L brains) (λ x w. record w { cheap_brain = x })
      ∷ field N L "brain_model" (read_model N L) (λ x w. record w { brain_model = x })
      ∷ field N L "cheap_brain_model" (read_model N L) (λ x w. record w { cheap_brain_model = x })
      ∷ field N L "playbook_text" (as_text N)
          (λ x w. record w { playbook_text = L.slice_to 4_000 x })
      ∷ field N L "invalidation_confirm_bars" (read_count N L 1 5)
          (λ x w. record w { invalidation_confirm_bars = x })
      ∷ field N L "invalidation_buffer_atr" (clamp_num N L "0" "1")
          (λ x w. record w { invalidation_buffer_atr = rounded_to N L "100" x })
      ∷ []

  abbrev pub screener_fields : List (Handler N)
  screener_fields =
      field N L "screener_enabled" (as_boolean N) (λ x w. record w { screener_enabled = x })
      ∷ field N L "screener_use_brain" (as_boolean N) (λ x w. record w { screener_use_brain = x })
      ∷ field N L "screener_expectancy" (as_boolean N) (λ x w. record w { screener_expectancy = x })
      ∷ field N L "screener_short_every_ms" (read_interval N L)
          (λ x w. record w { screener_short_every_ms = x })
      ∷ field N L "screener_swing_every_ms" (read_interval N L)
          (λ x w. record w { screener_swing_every_ms = x })
      ∷ field N L "screener_max_symbols" (read_count N L 1 300)
          (λ x w. record w { screener_max_symbols = x })
      ∷ field N L "screener_universe" (read_choice N L universes)
          (λ x w. record w { screener_universe = x })
      ∷ field N L "screener_apply" (read_choice N L apply_modes)
          (λ x w. record w { screener_apply = x })
      ∷ field N L "screener_symbols" (read_symbols N L) (λ x w. record w { screener_symbols = x })
      ∷ field N L "screener_whitelist" (read_symbols N L)
          (λ x w. record w { screener_whitelist = x })
      ∷ []

  abbrev pub first_field : Handler N
  first_field = field N L "watchlist" (read_watchlist N L) (set_watchlist N L)

  -- The two lists that depend on the watchlist, and on each other.
  abbrev pub list_fields : List (Handler N)
  list_fields =
      field N L "watchlist_max" (read_count N L 1 300) (set_watchlist_max N L)
      ∷ field N L "watch_only" (read_watch_only N L) (set_watch_only N L)
      ∷ []

  abbrev pub last_fields : List (Handler N)
  last_fields =
      field N L "paused" (as_boolean N) (λ x w. record w { paused = x })
      ∷ field N L "narrate" (as_boolean N) (λ x w. record w { narrate = x })
      ∷ field N L "chat_requires_approval" (as_boolean N)
          (λ x w. record w { chat_requires_approval = x })
      ∷ field N L "scan_mode" (read_choice N L scan_modes) (λ x w. record w { scan_mode = x })
      ∷ field N L "heartbeat_every_ms" (clamp_num N L "300000" "14400000")
          (λ x w. record w { heartbeat_every_ms = round x })
      ∷ field N L "fast_move_pct" (clamp_num N L "0.2" "5")
          (λ x w. record w { fast_move_pct = to_text (rounded_to N L "100" x) })
      ∷ field N L "review_every_close" (as_boolean N) (λ x w. record w { review_every_close = x })
      ∷ field N L "execution" (read_choice N L backends) (λ x w. record w { execution = x })
      ∷ field N L "exec_agent_cli" (read_choice N L agent_clis)
          (λ x w. record w { exec_agent_cli = x })
      ∷ field N L "exec_agent_model" (read_model N L) (λ x w. record w { exec_agent_model = x })
      ∷ field N L "active_strategies" (read_strategies N L)
          (λ x w. record w { active_strategies = x })
      ∷ field N L "daily_judgment_cap" (clamp_num N L "0" "5000")
          (λ x w. record w { daily_judgment_cap = round x })
      ∷ []

  unfoldable pub run_all : List (Handler N) → Handler N
  run_all [] patch st = st
  run_all (h ∷ hs) patch st = run_all hs patch (h patch st)

  -- Up to the line that keeps what is only watched within the watchlist.
  unfoldable pub patch_lists : Handler N
  unfolding run_all update keep_watched
  patch_lists patch st =
      let first = run_all other_fields patch (first_field patch st) in
      let listed = run_all list_fields patch (run_all screener_fields patch first) in
      update N L (keep_watched N L) listed

  -- The rest; `now` is what `Date.now` says at the end.
  unfoldable pub patch_rest : Workflow N → ℕ → Handler N
  unfolding run_all update patch_commands
  patch_rest current now patch st =
      update N L (λ w. record w { updated_at = now })
        (patch_commands N L current patch (run_all last_fields patch st))

  unfoldable pub apply_workflow_patch : Workflow N → Patch N → ℕ → Patched N
  unfolding patch_lists patch_rest
  apply_workflow_patch current patch now =
      patch_rest current now patch (patch_lists patch (record { next = current; errors = [] }))
