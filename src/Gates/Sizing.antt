-- ===== src/Gates/Sizing.antt =====
-- `floorToStep` and `computeSizing`. The notes of a sizing are texts for people and left out.
pub mod Accepted
use trade_gate.Prelude.{
  ℕ, zero, suc, Bool, true, false, not, ◌&&◌, ◌||◌, Option, none, some, String, List, [], ◌∷◌, ◌==◌,
  string_eq, nat_eq, if◌then◌else◌, codes,
}
use trade_gate.Numbers.{Numbers}
use trade_gate.Threads.Types.{Direction, long, short, EntryType, market, limit}
use trade_gate.Gates.Types.{Proposal, GateConfig}

pub record SymbolRules : Type 0 where
  pub step_size : String
  pub tick_size : String
  pub min_qty : String
  pub min_notional : String

until_dot : List ℕ → List ℕ
until_dot [] = []
until_dot (c ∷ cs) = if c == b'.' then [] else c ∷ until_dot cs

-- `step.split('.')[1] ?? ''`
fraction : List ℕ → List ℕ
fraction [] = []
fraction (c ∷ cs) = if c == b'.' then until_dot cs else fraction cs

-- The length without the zeros at the end.
significant : List ℕ → ℕ
significant [] = 0
significant (c ∷ cs) = let n = significant cs in if n == 0 && c == b'0' then 0 else suc n

unfoldable pub decimals_of : String → ℕ
unfolding until_dot fraction significant
decimals_of step = significant (fraction (codes step))

-- `s || '0'`
abbrev pub or_zero : String → String
or_zero s = if s == "" then "0" else s

module _ (N : Numbers) where
  open N use {
    Number, of_text, lt, le, add, sub, mul, div, abs, least, greatest, floor, is_finite, is_truthy,
    to_text, to_fixed, fixed_to,
  }

  pub record SizingOptions : Type 0 where
    pub liquidity_notional_cap : Option Number
    pub fixed_qty : Option String

  pub record Sizing : Type 0 where
    pub equity : String
    pub risk_pct : String
    pub risk_usdt : String
    pub stop_distance : String
    pub raw_qty : String
    pub step_size : String

  -- The amounts that the code computes before the quantity.
  pub record Basis : Type 0 where
    pub equity : Number
    pub ref : Number
    pub notional_ref : Number
    pub minimum_ref : Number
    pub stop_dist : Number
    pub risk_usdt : Number
    pub max_notional : Number
    pub min_notional : Number
    pub liquidity_cap : Number

  unfoldable pub floor_to_step : Number → String → String
  unfolding decimals_of
  floor_to_step qty step =
      let s = of_text step in
      if not (lt (of_text "0") s)
      then to_text qty
      else fixed_to (decimals_of step) (mul (floor (add (div qty s) (of_text "1e-9"))) s)

  -- The limit price of a limit order that has one.
  abbrev pub limit_of : Proposal → Option Number
  limit_of p = elim p.entry [
    | market ↦ none
    | limit ↦ elim p.limit_price [
      | none ↦ none
      | some s ↦ if s == "" then none else some (of_text s)
    ]
  ]

  abbrev pub ref_of : Direction → Option Number → Number → Number
  ref_of d none mark = mark
  ref_of long (some lim) mark = greatest lim mark
  ref_of short (some lim) mark = least lim mark

  abbrev pub highest : Option Number → Number → Number
  highest none mark = mark
  highest (some lim) mark = greatest lim mark

  abbrev pub lowest : Option Number → Number → Number
  lowest none mark = mark
  lowest (some lim) mark = least lim mark

  abbrev pub cap_of : Option Number → Number
  cap_of none = of_text "Infinity"
  cap_of (some cap) = cap

  -- `equity` and `mark` are those of the account and the market.
  unfoldable pub basis :
      Proposal → String → String → SymbolRules → GateConfig N → SizingOptions → Basis
  basis p equity_text mark_text rules cfg options =
      let equity = of_text equity_text in
      let mark = of_text mark_text in
      let lim = limit_of p in
      let ref = ref_of p.direction lim mark in
      record {
        equity = equity;
        ref = ref;
        notional_ref = highest lim mark;
        minimum_ref = lowest lim mark;
        stop_dist = abs (sub ref (of_text p.stop_price));
        risk_usdt = div (mul equity cfg.risk_pct) (of_text "100");
        max_notional = mul equity cfg.max_notional_multiple;
        min_notional = of_text (or_zero rules.min_notional);
        liquidity_cap = cap_of options.liquidity_notional_cap;
      }

  -- The quantity before it is rounded: by the risk, then within each limit of the notional.
  unfoldable pub raw_qty : Basis → Number
  raw_qty b =
      let by_risk =
        if lt (of_text "0") b.stop_dist then div b.risk_usdt b.stop_dist else of_text "0" in
      let below =
        if lt b.max_notional (mul by_risk b.notional_ref)
        then div b.max_notional b.notional_ref
        else by_risk in
      let above =
        if lt (of_text "0") b.min_notional && lt (mul below b.minimum_ref) b.min_notional
        then div (mul b.min_notional (of_text "1.02")) b.minimum_ref
        else below in
      if lt b.liquidity_cap (mul above b.notional_ref)
      then div (greatest (of_text "0") b.liquidity_cap) b.notional_ref
      else above

  abbrev or_zero_number : Number → Number
  or_zero_number x = if is_truthy x then x else of_text "0"

  -- One step more where rounding down fell under the exchange's minimum.
  unfoldable pub step_qty : Basis → String → Number → String
  unfolding floor_to_step decimals_of
  step_qty b step raw =
      let qty = floor_to_step raw step in
      if lt (of_text "0") b.min_notional && lt (mul (of_text qty) b.minimum_ref) b.min_notional
      then fixed_to (decimals_of step) (add (of_text qty) (or_zero_number (of_text step)))
      else qty

  abbrev final_qty : Option String → String → String
  final_qty none qty = qty
  final_qty (some fixed) qty = fixed

  -- `sizing 数据不可用`: some amount is no number, not positive, or over the liquidity.
  unfoldable pub unusable : Basis → Number → Bool
  unusable b q =
      not (is_finite q)
      || not (is_finite b.risk_usdt)
      || not (lt (of_text "0") b.equity)
      || not (lt (of_text "0") b.stop_dist)
      || not (lt (of_text "0") b.ref)
      || not (lt (of_text "0") b.liquidity_cap)
      || lt b.liquidity_cap (mul q b.notional_ref)

  unfoldable pub is_ok : Basis → SymbolRules → Number → Bool
  unfolding unusable
  is_ok b rules q =
      le (of_text (or_zero rules.min_qty)) q
      && lt (of_text "0") q
      && not (lt (mul q b.minimum_ref) b.min_notional)
      && not (lt (mul b.max_notional (of_text "1.0001")) (mul q b.notional_ref))
      && not (unusable b q)
      && not (lt (add (mul b.risk_usdt (of_text "1.05")) (of_text "1e-9")) (mul q b.stop_dist))

  pub record Sized : Type 0 where
    pub qty : String
    pub ok : Bool
    pub sizing : Sizing

  unfoldable pub compute_sizing :
      Proposal → String → String → SymbolRules → GateConfig N → SizingOptions → Sized
  unfolding basis raw_qty step_qty is_ok
  compute_sizing p equity_text mark_text rules cfg options =
      let b = basis p equity_text mark_text rules cfg options in
      let raw = raw_qty b in
      let chosen = final_qty options.fixed_qty (step_qty b rules.step_size raw) in
      record {
        qty = chosen;
        ok = is_ok b rules (of_text chosen);
        sizing = record {
          equity = to_fixed b.equity;
          risk_pct = to_text cfg.risk_pct;
          risk_usdt = to_fixed b.risk_usdt;
          stop_distance = to_fixed b.stop_dist;
          raw_qty = fixed_to 6 raw;
          step_size = rules.step_size;
        };
      }
