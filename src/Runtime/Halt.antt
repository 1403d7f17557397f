-- ===== src/Runtime/Halt.antt =====
-- `halt` and `resume` of runtime.ts, for the kind of the backend and the database's order of rows,
-- without the reading of the account at the end of `halt`, and with `setWorkflow` of `resume` by its
-- effect on `paused`.
pub mod Incomplete
mod Examples
use trade_gate.Prelude.{
  ℕ, ◌+◌, Bool, true, false, not, ◌&&◌, ◌||◌, Option, none, some, String, List, [], ◌∷◌, ◌++◌, map,
  filter, contains, ◌==◌, Eq, eq_of_discrete, string_eq, if◌then◌else◌,
}
use trade_gate.Dict
use trade_gate.Graph.Types.{pending_entry, closed, canceled, status_eq}
use trade_gate.Threads.Types.{StrategyThread, Backend, paper, halt_incomplete}
use trade_gate.Threads.Opening.{is_open}
use trade_gate.Runtime.World.{World, Others, save_thread, given_text}
use trade_gate.Runtime.Stops.{CloseReply}
use trade_gate.Runtime.Preflight.{Done, is_awake}

-- The replies for a symbol, what other handlers do until they come, and whether the account that the
-- handler knows has a position on it then.
pub record HaltReplies : Type 0 where
  pub cancel_all : Done
  pub after_cancel_all : Others
  pub close : CloseReply
  pub after_close : Others
  pub is_held : Bool

pub record HaltTimes : Type 0 where
  pub ended : ℕ
  pub updated : ℕ

-- `new Set(xs)`, in the order of first insertion.
abbrev add_symbols : List String → List String → List String
add_symbols seen [] = seen
add_symbols seen (x ∷ xs) =
    if contains x seen then add_symbols seen xs else add_symbols (seen ++ x ∷ []) xs

-- `ORDER BY updated_at DESC LIMIT 200` of the database, an argument of what follows.
abbrev pub Rows : Type 0
Rows = List StrategyThread → List StrategyThread

unfoldable pub open_threads : Backend → Rows → World → List StrategyThread
unfolding is_awake
open_threads b rows w = rows (filter (is_awake b) (Dict.values w.threads))

-- The symbols of the open threads and of the account's positions.
unfoldable pub halt_symbols : Backend → Rows → List String → World → List String
unfolding open_threads
halt_symbols b rows positions w =
    add_symbols [] (map (λ t. t.symbol) (open_threads b rows w) ++ positions)

-- Whether the exchange's state of a symbol is left open.
unfoldable pub is_failed : HaltReplies → Bool
is_failed r = not r.cancel_all.ok || elim (given_text r.close.error) [
  | some _ ↦ true
  | none ↦ if r.close.closed then false else r.is_held
]

-- The loop over the symbols: the state after it.
unfoldable pub flatten_all : (String → HaltReplies) → List String → World → World
flatten_all replies [] w = w
flatten_all replies (s ∷ symbols) w =
    flatten_all replies symbols ((replies s).after_close ((replies s).after_cancel_all w))

-- The symbols that failed.
unfoldable pub failed_symbols : (String → HaltReplies) → List String → List String
unfolding is_failed
failed_symbols replies symbols = filter (λ s. is_failed (replies s)) symbols

-- What the halt makes of an open thread.
unfoldable pub halt_thread : HaltTimes → List String → StrategyThread → StrategyThread
halt_thread c failed t =
    if contains t.symbol failed
    then record t {
      attention = some halt_incomplete;
      version = t.version + 1;
      updated_at = c.updated;
    }
    else record t {
      status = if t.status == pending_entry then canceled else closed;
      closed_at = some c.ended;
      close_reason = some "紧急停止";
      version = t.version + 1;
      updated_at = c.updated;
    }

-- The loop over the threads that are open when it starts.
unfoldable pub halt_threads : HaltTimes → List String → List StrategyThread → World → World
unfolding halt_thread
halt_threads c failed [] w = w
halt_threads c failed (t ∷ ts) w = halt_threads c failed ts (save_thread (halt_thread c failed t) w)

abbrev pub set_halted : Bool → World → World
set_halted b w = record w { halted = b }

unfoldable pub halt :
    Backend → Rows → HaltTimes → List String → (String → HaltReplies) → World → World
unfolding halt_symbols flatten_all failed_symbols halt_threads open_threads
halt b rows c positions replies w =
    let symbols = halt_symbols b rows positions w in
    let asked = flatten_all replies symbols (set_halted true w) in
    halt_threads c (failed_symbols replies symbols) (open_threads b rows asked) asked

abbrev is_resume : Option String → Bool
is_resume none = false
is_resume (some s) = s == "RESUME"

-- The answer of `resume` is whether it resumed.
unfoldable pub resume : Option String → World → World × Bool
resume confirm w =
    if w.halted && not (is_resume confirm)
    then (w, false)
    else (record w { halted = false; paused = false }, true)
