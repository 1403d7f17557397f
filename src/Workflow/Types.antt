-- ===== src/Workflow/Types.antt =====
-- `Workflow`, its choices and its defaults.
use trade_gate.Prelude.{ℕ, Bool, true, false, Option, none, some, String, List, [], ◌∷◌}
use trade_gate.Numbers.{Numbers}
use trade_gate.Threads.Types.{MarginMode, cross, isolated, Backend, paper, demo, cli, agent_mcp}

pub data BrainKind : Type 0 where
  pi_brain claude_brain codex_brain stub_brain : BrainKind

pub data AgentCliKind : Type 0 where
  claude_agent codex_agent : AgentCliKind

pub data ScanMode : Type 0 where
  triggered every_close : ScanMode

pub data Universe : Type 0 where
  watchlist_and_whitelist top_volume explicit : Universe

pub data ApplyMode : Type 0 where
  propose auto : ApplyMode

-- The texts that a patch may name, each with its choice.
abbrev pub brains : List (String × BrainKind)
brains =
    ("pi", pi_brain) ∷ ("claude", claude_brain) ∷ ("codex", codex_brain) ∷ ("stub", stub_brain) ∷ []

abbrev pub backends : List (String × Backend)
backends = ("paper", paper) ∷ ("demo", demo) ∷ ("cli", cli) ∷ ("agent_mcp", agent_mcp) ∷ []

abbrev pub agent_clis : List (String × AgentCliKind)
agent_clis = ("claude", claude_agent) ∷ ("codex", codex_agent) ∷ []

abbrev pub margin_modes : List (String × MarginMode)
margin_modes = ("cross", cross) ∷ ("isolated", isolated) ∷ []

abbrev pub scan_modes : List (String × ScanMode)
scan_modes = ("triggered", triggered) ∷ ("every_close", every_close) ∷ []

abbrev pub universes : List (String × Universe)
universes =
    ("watchlist+whitelist", watchlist_and_whitelist)
    ∷ ("top_volume", top_volume)
    ∷ ("explicit", explicit)
    ∷ []

abbrev pub apply_modes : List (String × ApplyMode)
apply_modes = ("propose", propose) ∷ ("auto", auto) ∷ []

abbrev pub cli_names : List String
cli_names = "claude" ∷ "codex" ∷ "pi" ∷ []

abbrev pub default_screen_symbols : List String
default_screen_symbols =
    "BTCUSDT" ∷ "ETHUSDT" ∷ "SOLUSDT" ∷ "BNBUSDT" ∷ "XRPUSDT" ∷ "DOGEUSDT" ∷ "HYPEUSDT"
    ∷ "PENGUUSDT" ∷ "TSLAUSDT" ∷ "NVDAUSDT" ∷ "AAPLUSDT" ∷ "GOOGLUSDT" ∷ "AMDUSDT" ∷ "QQQUSDT"
    ∷ "MUUSDT" ∷ "SNDKUSDT" ∷ "CRCLUSDT" ∷ "SPCXUSDT" ∷ "CLUSDT" ∷ "XAUUSDT" ∷ "XAUTUSDT"
    ∷ "XAGUSDT" ∷ "SOXSUSDT" ∷ "KORUUSDT" ∷ "TENCENTUSDT" ∷ "CXMTUSDT" ∷ "SKHYNIXUSDT" ∷ []

module _ (N : Numbers) where
  open N use {Number, of_text}

  pub record Workflow : Type 0 where
    pub watchlist : List String
    pub timeframe : String
    pub info_every_ms : Number
    pub risk_pct : String
    pub leverage : Number
    pub margin_mode : MarginMode
    pub max_open_threads : Number
    pub max_opens_per_day : Number
    pub daily_loss_stop_pct : String
    pub auto_approve : Bool
    pub brain : BrainKind
    pub cheap_brain : BrainKind
    pub brain_model : Option String
    pub cheap_brain_model : Option String
    pub playbook_text : String
    pub paused : Bool
    pub narrate : Bool
    pub chat_requires_approval : Bool
    pub scan_mode : ScanMode
    pub heartbeat_every_ms : Number
    pub watch_only : List String
    pub invalidation_confirm_bars : ℕ
    pub invalidation_buffer_atr : Number
    pub fast_move_pct : String
    pub review_every_close : Bool
    pub execution : Backend
    pub exec_agent_cli : AgentCliKind
    pub exec_agent_model : Option String
    pub daily_judgment_cap : Number
    pub screener_enabled : Bool
    pub screener_short_every_ms : Number
    pub screener_swing_every_ms : Number
    pub screener_universe : Universe
    pub screener_symbols : List String
    pub screener_whitelist : List String
    pub screener_max_symbols : ℕ
    pub screener_use_brain : Bool
    pub screener_apply : ApplyMode
    pub screener_expectancy : Bool
    pub watchlist_max : ℕ
    pub cli_commands : List (String × String)
    pub active_strategies : List String
    pub updated_at : ℕ

  -- The defaults, with the playbook's text and the commands, which come from the environment.
  abbrev pub default_workflow : String → List (String × String) → Workflow
  default_workflow playbook commands = record {
    watchlist = "BTCUSDT" ∷ "ETHUSDT" ∷ "SOLUSDT" ∷ "BNBUSDT" ∷ [];
    timeframe = "15m";
    info_every_ms = of_text "1800000";
    risk_pct = "0.5";
    leverage = of_text "3";
    margin_mode = cross;
    max_open_threads = of_text "3";
    max_opens_per_day = of_text "4";
    daily_loss_stop_pct = "3";
    auto_approve = true;
    brain = stub_brain;
    cheap_brain = stub_brain;
    brain_model = none;
    cheap_brain_model = none;
    playbook_text = playbook;
    paused = false;
    narrate = true;
    chat_requires_approval = false;
    scan_mode = triggered;
    heartbeat_every_ms = of_text "1800000";
    watch_only = [];
    invalidation_confirm_bars = 2;
    invalidation_buffer_atr = of_text "0.2";
    fast_move_pct = "0.8";
    review_every_close = false;
    execution = paper;
    exec_agent_cli = claude_agent;
    exec_agent_model = some "sonnet";
    daily_judgment_cap = of_text "300";
    screener_enabled = true;
    screener_short_every_ms = of_text "43200000";
    screener_swing_every_ms = of_text "259200000";
    screener_universe = watchlist_and_whitelist;
    screener_symbols = [];
    screener_whitelist = default_screen_symbols;
    screener_max_symbols = 60;
    screener_use_brain = true;
    screener_apply = propose;
    screener_expectancy = false;
    watchlist_max = 60;
    cli_commands = commands;
    active_strategies = "breakout_retest" ∷ [];
    updated_at = 0;
  }
