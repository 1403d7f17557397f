-- ===== src/Workflow/Readers.antt =====
-- What `applyWorkflowPatch` reads of single keys, and how it stores the lists and the commands.
use trade_gate.Prelude.{
  ℕ, true, false, not, ◌&&◌, Option, none, some, String, List, [], ◌∷◌, ◌++◌, map, ltb, ◌==◌,
  string_eq, contains, nat_eq, filter, take, any, length, if◌then◌else◌,
}
use trade_gate.Dict
use trade_gate.Numbers.{Numbers}
use trade_gate.Workflow.Values.{Value, as_array, as_object, as_text, Language}
use trade_gate.Workflow.Texts.{is_symbol, is_strategy_id, has_line_break}
use trade_gate.Workflow.Types.{Workflow, cli_names}
use trade_gate.Workflow.Fields.{Handler, to_set, refuse}

abbrev pub timeframes : List String
timeframes = "1m" ∷ "3m" ∷ "5m" ∷ "15m" ∷ "30m" ∷ "1h" ∷ "4h" ∷ []

abbrev pub cli_command_max_chars : ℕ
cli_command_max_chars = 500

pub data CommandError : Type 0 where
  not_text blank too_long many_lines : CommandError

module _ (N : Numbers) (L : Language N) where
  open N use {Number, round, to_text}

  -- `String(x).trim()`
  abbrev trimmed : Value N → String
  trimmed v = L.trim (L.to_text v)

  unfoldable pub read_watchlist : Value N → Option (List String)
  unfolding to_set is_symbol
  read_watchlist v = elim (as_array N v) [
    | none ↦ none
    | some vs ↦
        let list = to_set [] (filter is_symbol (map (λ s. L.to_upper_case (trimmed s)) vs)) in
        if length list == 0 then none else some list
  ]

  unfoldable pub read_timeframe : Value N → Option String
  read_timeframe v = if contains (L.to_text v) timeframes then some (L.to_text v) else none

  unfoldable pub read_watch_only : Value N → Option (List String)
  read_watch_only v = elim (as_array N v) [
    | none ↦ none
    | some vs ↦ some (map (λ s. L.to_upper_case (trimmed s)) vs)
  ]

  unfoldable pub read_strategies : Value N → Option (List String)
  unfolding to_set is_strategy_id
  read_strategies v = elim (as_array N v) [
    | none ↦ none
    | some vs ↦
        let list = to_set [] (map trimmed vs) in
        if any (λ s. not (is_strategy_id s)) list then none else some (take 4 list)
  ]

  -- `null` of the source is `none`.
  unfoldable pub cli_command_error : Value N → Option CommandError
  unfolding has_line_break
  cli_command_error v = elim (as_text N v) [
    | none ↦ some not_text
    | some s ↦
        if L.trim s == ""
        then some blank
        else if ltb cli_command_max_chars (L.length_of (L.trim s))
        then some too_long
        else if has_line_break s
        then some many_lines
        else none
  ]

  -- The loop over the entries of `cli_commands`.
  unfoldable pub merge_commands :
      List (String × Value N)
      → List (String × String)
      → List String
      → List (String × String) × List String
  unfolding cli_command_error
  merge_commands [] merged errors = (merged, errors)
  merge_commands ((k, v) ∷ es) merged errors =
      let good =
        contains k cli_names && (elim (cli_command_error v) [ none ↦ true | some e ↦ false ]) in
      merge_commands es (if good then Dict.set k (trimmed v) merged else merged)
        (if good then errors else errors ++ k ∷ [])

  unfoldable pub patch_commands : Workflow N → Handler N
  unfolding merge_commands refuse
  patch_commands current patch st = elim (Dict.get "cli_commands" patch) [
    | none ↦ st
    | some v ↦ elim (as_object N v) [
      | none ↦ refuse N L "cli_commands" st
      | some es ↦
          let merged = merge_commands es current.cli_commands st.errors in
          record st { next = record st.next { cli_commands = merged.0 }; errors = merged.1 }
    ]
  ]

  unfoldable pub set_watchlist : List String → Workflow N → Workflow N
  set_watchlist list w = record w { watchlist = take w.watchlist_max list }

  unfoldable pub set_watchlist_max : ℕ → Workflow N → Workflow N
  set_watchlist_max n w = record w {
    watchlist_max = n;
    watchlist = if ltb n (length w.watchlist) then take n w.watchlist else w.watchlist;
  }

  unfoldable pub set_watch_only : List String → Workflow N → Workflow N
  unfolding to_set
  set_watch_only texts w = record w {
    watch_only = to_set [] (filter (λ s. contains s w.watchlist) texts);
  }

  unfoldable pub keep_watched : Workflow N → Workflow N
  keep_watched w = record w { watch_only = filter (λ s. contains s w.watchlist) w.watch_only }
