-- ===== src/Gates/Evaluate.antt =====
-- `evaluateGates`.
use trade_gate.Prelude.{
  ◌+◌, Bool, true, false, not, ◌&&◌, ◌||◌, Option, none, some, String, List, [], ◌∷◌, ◌++◌, ltb,
  ◌==◌, string_eq, any, contains, if◌then◌else◌,
}
use trade_gate.Numbers.{Numbers}
use trade_gate.Graph.Types.{Action, propose, add}
use trade_gate.Threads.Types.{Direction, long, short, market, limit}
use trade_gate.Gates.Types.{
  Proposal, GateContext, GateResult, market_stale_ms, GatedJudgment, GateConfig,
}

abbrev pub gate : String → Bool → GateResult
gate name passed = record { name = name; passed = passed }

abbrev pub is_opening : Action → Bool
is_opening propose = true
is_opening add = true
is_opening _ = false

-- `now - as_of > MARKET_STALE_MS`
unfoldable pub snapshot_stale : GateContext → Bool
snapshot_stale ctx = elim ctx.now [
  | none ↦ false
  | some now ↦ ltb (ctx.as_of + market_stale_ms) now
]

unfoldable pub cites_stale : List String → GateContext → Bool
cites_stale refs ctx = any (λ r. contains r ctx.stale_refs) refs

abbrev is_empty {ℓ} : {A : Type ℓ} → List A → Bool
is_empty [] = true
is_empty (a ∷ l) = false

module _ (N : Numbers) where
  open N use {Number, of_text, lt, le, sub, mul, div, abs, least, greatest}

  -- The worse of the mark and a limit that there is.
  unfoldable pub reference_price : Proposal → String → Number
  reference_price p mark =
      let worse : String → Number = λ text. elim p.direction [
        | long ↦ least (of_text text) (of_text mark)
        | short ↦ greatest (of_text text) (of_text mark)
      ] in
      elim p.entry [
        | market ↦ of_text mark
        | limit ↦ elim p.limit_price [
          | none ↦ of_text mark
          | some text ↦ if text == "" then of_text mark else worse text
        ]
      ]

  unfoldable pub on_side : Direction → Number → Number → Bool
  on_side long low high = lt low high
  on_side short low high = lt high low

  unfoldable pub tp_gates : Direction → Number → Option String → List GateResult
  unfolding on_side
  tp_gates direction ref none = []
  tp_gates direction ref (some text) =
      if text == "" then [] else gate "止盈在正确一侧" (on_side direction ref (of_text text)) ∷ []

  unfoldable pub price_gates : GateConfig N → String → Option Proposal → List GateResult
  unfolding reference_price on_side tp_gates
  price_gates cfg mark none = []
  price_gates cfg mark (some p) =
      let ref = reference_price p mark in
      let stop = of_text p.stop_price in
      let dist = mul (div (abs (sub ref stop)) ref) (of_text "100") in
      gate "止损在正确一侧" (on_side p.direction stop ref)
      ∷ gate "止损距离" (le cfg.min_stop_pct dist && le dist cfg.max_stop_pct)
      ∷ tp_gates p.direction ref p.take_profit_price

  unfoldable pub propose_gates : GatedJudgment N → GateContext → GateConfig N → List GateResult
  unfolding price_gates
  propose_gates j ctx cfg =
      gate "无持仓才能开仓" (is_empty ctx.positions)
      ∷ gate "每日开仓上限" (ltb ctx.opens_today cfg.max_opens_per_day)
      ∷ (price_gates cfg ctx.mark j.proposal ++ gate "信心下限" (le (of_text "0.4") j.confidence) ∷ [])

  unfoldable pub action_gates :
      Action → GatedJudgment N → GateContext → GateConfig N → List GateResult
  unfolding propose_gates
  action_gates propose j ctx cfg = propose_gates j ctx cfg
  action_gates add j ctx cfg = gate "演示版不加仓" false ∷ []
  action_gates _ j ctx cfg = []

  unfoldable pub evaluate_gates : GatedJudgment N → GateContext → GateConfig N → List GateResult
  unfolding action_gates snapshot_stale cites_stale
  evaluate_gates j ctx cfg =
      let opening = is_opening j.action in
      gate "紧急停止" (not (ctx.halted && opening))
      ∷ gate "暂停" (not (ctx.paused && opening))
      ∷ gate "证据新鲜度" (not (opening && (cites_stale j.evidence_refs ctx || snapshot_stale ctx)))
      ∷ action_gates j.action j ctx cfg
