-- ===== src/Paper/Snapshot.antt =====
-- `snapshot` and `restore`: what is handed to `JSON.stringify`, and what is done with the result of
-- `JSON.parse`, `none` where the text is missing or unreadable. The writing and parsing themselves,
-- which do not keep every number, are not here but an argument of what restarts a backend.
use trade_gate.Prelude.{
  ℕ, suc, ◌-◌, Option, none, some, String, List, [], ◌∷◌, not, if◌then◌else◌, ltb, ◌==◌, nat_eq,
  string_eq, length, drop,
}
use trade_gate.Dict
use trade_gate.Numbers.{Numbers}
use trade_gate.Paper.Types.{PaperOrder, Orders, Closed, PaperPosition, Paper}

abbrev pub paper_snapshot_version : ℕ
paper_snapshot_version = 1

abbrev pub closed_keep : ℕ
closed_keep = 500

-- The newest `closed_keep` ends of orders.
unfoldable pub newest : Closed → Closed
newest closed =
    if ltb closed_keep (length closed) then drop (length closed - closed_keep) closed else closed

-- New objects, numbered from `n`.
abbrev pub number_from : ℕ → List PaperOrder → Orders
number_from n [] = []
number_from n (o ∷ orders) = (n, o) ∷ number_from (suc n) orders

module _ (N : Numbers) where
  open N use {Number, is_finite}

  pub record PaperSnapshot : Type 0 where
    pub version : ℕ
    pub wallet : Number
    pub positions : List (PaperPosition N)
    pub orders : List PaperOrder
    pub closed : Closed
    pub marks : List (String × String)
    pub leverages : List (String × ℕ)

  unfoldable pub snapshot : Paper N → PaperSnapshot
  unfolding newest
  snapshot s = record {
    version = paper_snapshot_version;
    wallet = s.wallet;
    positions = Dict.values s.positions;
    orders = Dict.values s.orders;
    closed = newest s.closed;
    marks = s.marks;
    leverages = s.leverages;
  }

  -- `snap.positions.map((p) => [p.symbol, p])`
  abbrev pub by_symbol : List (PaperPosition N) → List (String × PaperPosition N)
  by_symbol [] = []
  by_symbol (p ∷ ps) = (p.symbol, p) ∷ by_symbol ps

  unfoldable pub restore_from : PaperSnapshot → Paper N → Paper N
  restore_from snap s = record {
    wallet = if is_finite snap.wallet then snap.wallet else s.wallet;
    positions = Dict.of_entries [] (by_symbol snap.positions);
    orders = number_from 0 snap.orders;
    closed = Dict.of_entries [] snap.closed;
    marks = Dict.of_entries [] snap.marks;
    leverages = Dict.of_entries [] snap.leverages;
    next_object = length snap.orders;
  }

  unfoldable pub restore : Option PaperSnapshot → Paper N → Paper N
  unfolding restore_from
  restore none s = s
  restore (some snap) s =
      if not (snap.version == paper_snapshot_version) then s else restore_from snap s
