-- ===== src/Runtime/Halt/Examples.antt =====
-- A halt on concrete threads.
use trade_gate.Prelude.{
  ◌≡◌, refl, true, none, some, String, [], string_eq, option_eq, nat_eq, contains, ◌==◌,
}
use mathlib.Core.Bool.{decide}
use trade_gate.Dict
use trade_gate.Threads.Types.{paper, StrategyThread, new_thread}
use trade_gate.Runtime.World.{World, save_thread}
use trade_gate.Runtime.Halt.{
  HaltReplies, HaltTimes, halt_symbols, open_threads, flatten_all, set_halted, halt, Rows,
}
use trade_gate.Runtime.Preflight.{is_awake, Backend-discrete}
use trade_gate.Runtime.Halt.Incomplete.{AreKeyed, EndsAsFlat, halt-EndsAsFlat}
use trade_gate.Threads.Opening.{is_open}
use trade_gate.Runtime.Examples.{held, in_store}

-- A halt with two open threads, of which the exchange does not close the position of one.
abbrev other : StrategyThread
other = record held { id = "t2"; symbol = "ETHUSDT" }

abbrev two_held : World
two_held = save_thread other in_store

abbrev halt_times : HaltTimes
halt_times = record { ended = 3_000; updated = 3_000 }

abbrev halt_replies : String → HaltReplies
halt_replies symbol = record {
  cancel_all = record { ok = true; error = none };
  after_cancel_all = λ w. w;
  close = record { closed = symbol == "ETHUSDT"; error = none };
  after_close = λ w. w;
  is_held = true;
}

abbrev as_stored : Rows
as_stored ts = ts

abbrev all_asked : World
all_asked =
    flatten_all halt_replies (halt_symbols paper as_stored [] two_held) (set_halted true two_held)

all_asked-AreKeyed : AreKeyed all_asked.threads
unfolding halt_symbols open_threads is_awake Backend-discrete decide flatten_all save_thread
    new_thread Dict.get Dict.set is_open
all_asked-AreKeyed = (refl, refl, (refl, refl, tt))

all_asked-t1 : Dict.get "t1" all_asked.threads ≡ some held
unfolding halt_symbols open_threads is_awake Backend-discrete decide flatten_all save_thread
    new_thread Dict.get Dict.set is_open
all_asked-t1 = refl

held-is_awake : is_awake paper held ≡ true
unfolding is_open is_awake Backend-discrete decide new_thread
held-is_awake = refl

held-is_asked : contains held.symbol (halt_symbols paper as_stored [] two_held) ≡ true
unfolding halt_symbols open_threads is_awake Backend-discrete decide save_thread is_open new_thread
    Dict.set
held-is_asked = refl

halt-EndsAsFlat_example :
    (s : StrategyThread) × (Dict.get "t1"
        (halt paper as_stored halt_times [] halt_replies two_held).threads
      ≡ some s)
    × EndsAsFlat (halt_replies held.symbol) held s
halt-EndsAsFlat_example =
    halt-EndsAsFlat paper as_stored halt_times [] halt_replies two_held all_asked "t1" held refl
      all_asked-AreKeyed ((λ P a. a), (λ p a. a)) all_asked-t1 held-is_awake held-is_asked
