-- ===== src/Paper/Steps.antt =====
-- The calls of the backend that change its state, and their histories.
use trade_gate.Prelude.{ℕ, String, List, [], ◌∷◌}
use trade_gate.Numbers.{Numbers}
use trade_gate.Threads.Types.{Direction}
use trade_gate.Paper.Types.{Paper}
use trade_gate.Paper.Orders.{
  EntryRequest, set_mark, set_leverage, place_entry, place_stop, place_take_profit, close_position,
  reduce_position, cancel_all, cancel_order,
}
use trade_gate.Paper.Tick.{tick}

pub data PaperCall : Type 0 where
  marks : String → String → PaperCall
  leverages : String → ℕ → PaperCall
  enters : EntryRequest → PaperCall
  stops : String → Direction → String → String → PaperCall
  takes : String → Direction → String → String → PaperCall
  closes : String → PaperCall
  reduces : String → String → PaperCall
  cancels_all : String → PaperCall
  cancels : String → String → PaperCall
  ticks : String → String → PaperCall

module _ (N : Numbers) where
  unfoldable pub paper_step : Paper N → PaperCall → Paper N
  unfolding set_mark set_leverage place_entry place_stop place_take_profit close_position
      reduce_position cancel_all cancel_order tick
  paper_step s (marks symbol price) = set_mark N symbol price s
  paper_step s (leverages symbol leverage) = set_leverage N symbol leverage s
  paper_step s (enters req) = (place_entry N req s).0
  paper_step s (stops symbol position price id) = (place_stop N symbol position price id s).0
  paper_step s (takes symbol position price id) = (place_take_profit N symbol position price id s).0
  paper_step s (closes symbol) = (close_position N symbol s).0
  paper_step s (reduces symbol qty) = (reduce_position N symbol qty s).0
  paper_step s (cancels_all symbol) = cancel_all N symbol s
  paper_step s (cancels symbol id) = (cancel_order N symbol id s).0
  paper_step s (ticks symbol price) = (tick N symbol price s).0

  unfoldable pub paper_run : Paper N → List PaperCall → Paper N
  unfolding paper_step
  paper_run s [] = s
  paper_run s (c ∷ calls) = paper_run (paper_step s c) calls
