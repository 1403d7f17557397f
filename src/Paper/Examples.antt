-- ===== src/Paper/Examples.antt =====
-- The theorems on the backend at a short history, with whole numbers for the floats.
use trade_gate.Prelude.{
  ◌&&◌, ℕ, ◌≡◌, ◌⊎◌, refl, true, false, some, [], ◌∷◌, arith, String, ◌==◌, string_eq, nat_eq,
  if◌then◌else◌, all, length, ◌≤◌, not, List,
}
use trade_gate.Dict
use trade_gate.Numbers.{Numbers}
use trade_gate.Numbers.Whole.{whole}
use trade_gate.Threads.Types.{long, limit}
use trade_gate.Paper.Types.{number_of, PaperPosition, Paper, new_paper}
use trade_gate.Paper.Fills.{mark, fill_existing, fill}
use trade_gate.Paper.Orders.{
  EntryRequest, new_view, get_order, place_entry, place_as, place_limit, fill_now, push, crosses,
  set_mark, place_stop, settle,
}
use trade_gate.Paper.Account.{account}
use trade_gate.Paper.Steps.{PaperCall, marks, enters, stops, ticks, paper_step, paper_run}
use trade_gate.Paper.Tick.{
  is_resting, tick, fill_entries, fill_resting, after_entries, check_protection, is_hit,
}
use trade_gate.Paper.Fate.{is_open_id, has_ended}
use trade_gate.Paper.Valid.{IsValid}
use trade_gate.Paper.Invariant.{new_paper-IsValid, paper_run-IsValid}
use trade_gate.Paper.Lifecycle.{places, get_order-final, get_order-kept}
use trade_gate.Prelude.{All, ℕ, min, leb, ◌-◌, arith}
use trade_gate.Paper.Snapshot.{closed_keep, snapshot}
use trade_gate.Paper.Restart.{Json, ArePlain, restarted, restart_unseen}
use trade_gate.Paper.Filled.{tick_fills}
use trade_gate.Paper.Close.{CloseLaws}

abbrev read : String → ℕ
read s = if s == "100" then 100 else if s == "90" then 90 else if s == "5" then 5 else 0

abbrev floats : Numbers
floats = whole read

abbrev request : EntryRequest
request = record {
  symbol = "BTCUSDT";
  direction = long;
  qty = "5";
  entry = limit;
  limit_price = some "90";
  client_order_id = "e1";
}

-- A limit entry rests below the mark and has a stop.
abbrev opening : List PaperCall
opening = marks "BTCUSDT" "100" ∷ enters request ∷ stops "BTCUSDT" long "5" "s1" ∷ []

abbrev opened : Paper floats
opened = paper_run floats (new_paper floats 1_000) opening

opened-IsValid : IsValid floats opened
opened-IsValid =
    paper_run-IsValid floats (new_paper floats 1_000) opening (new_paper-IsValid floats 1_000)

-- The mark crosses the limit, then the stop.
abbrev filling : List PaperCall
filling = ticks "BTCUSDT" "90" ∷ []

abbrev later : List PaperCall
later = ticks "BTCUSDT" "90" ∷ ticks "BTCUSDT" "5" ∷ []

abbrev held : Paper floats
held = paper_run floats opened filling

held-IsValid : IsValid floats held
held-IsValid = paper_run-IsValid floats opened filling opened-IsValid

abbrev position : PaperPosition floats
position = record { symbol = "BTCUSDT"; side = long; qty = 5; entry_price = 90; leverage = 3 }

abbrev whole_history : List PaperCall
whole_history =
    marks "BTCUSDT" "100"
    ∷ enters request
    ∷ stops "BTCUSDT" long "5" "s1"
    ∷ ticks "BTCUSDT" "90"
    ∷ []

is_open_id-held : is_open_id "e1" held.orders ≡ false
unfolding paper_run paper_step set_mark place_entry place_as place_limit fill_now push crosses
    place_stop fill fill_existing settle tick fill_entries fill_resting after_entries
    check_protection is_hit mark Dict.get Dict.set Dict.remove
is_open_id-held = refl

is_open_id-opened : is_open_id "e1" opened.orders ≡ true
unfolding paper_run paper_step set_mark place_entry place_as place_limit fill_now push crosses
    place_stop fill fill_existing settle tick fill_entries fill_resting after_entries
    check_protection is_hit mark Dict.get Dict.set Dict.remove
is_open_id-opened = refl

all-later : all (λ c. not (places "e1" c)) later ≡ true
unfolding places
all-later = refl

get_order-final_example :
    get_order floats "e1" (paper_run floats held later) ≡ get_order floats "e1" held
get_order-final_example =
    get_order-final floats "e1" held later held-IsValid all-later is_open_id-held

get_order-kept_example :
    (get_order floats "e1" (paper_run floats opened later) ≡ some new_view)
    ⊎ (has_ended (get_order floats "e1" (paper_run floats opened later)) ≡ true)
get_order-kept_example =
    get_order-kept floats "e1" opened later opened-IsValid all-later is_open_id-opened

-- Every whole number is kept.
abbrev json : Json floats
json = record {
  is_plain = λ n. true;
  plain_finite = λ n h. refl;
  parsed = some;
  parsed_plain = λ snap h. refl;
}

plain_positions :
    (ps : List (PaperPosition floats))
    → All
        (λ (p : PaperPosition floats).
          (json.is_plain p.qty ≡ true) × (json.is_plain p.entry_price ≡ true))
        ps
plain_positions [] = tt
plain_positions (p ∷ ps) = ((refl, refl), plain_positions ps)

run-ArePlain :
    ArePlain floats json.is_plain
      (snapshot floats (paper_run floats (new_paper floats 1_000) whole_history))
unfolding snapshot
run-ArePlain = (refl, plain_positions _)

length-closed :
    length (paper_run floats (new_paper floats 1_000) whole_history).closed ≤ closed_keep
unfolding paper_run paper_step set_mark place_entry place_as place_limit fill_now push crosses
    place_stop fill fill_existing settle tick fill_entries fill_resting after_entries
    check_protection is_hit mark Dict.get Dict.set Dict.remove
length-closed = omega arith

restart_unseen_example :
    (account floats
        (restarted floats json 0 (paper_run floats (new_paper floats 1_000) whole_history))
      ≡ account floats (paper_run floats (new_paper floats 1_000) whole_history))
    × (get_order floats "s1"
          (restarted floats json 0 (paper_run floats (new_paper floats 1_000) whole_history))
        ≡ get_order floats "s1" (paper_run floats (new_paper floats 1_000) whole_history))
restart_unseen_example =
    restart_unseen floats json 0 1_000 whole_history "s1" run-ArePlain length-closed

least_self : (a : ℕ) → min a a ≡ a
least_self a = omega arith

le_slack : (a b : ℕ) → leb (a - b) a ≡ true
le_slack a b = ground arith

abbrev close_laws : CloseLaws floats
close_laws = record { least_self = λ a h. least_self a; le_slack = λ a h. le_slack a _ }

tick_fills_example :
    all
      (λ e. not (
        is_resting "BTCUSDT" e && crosses floats e.1.position_side 90 (number_of floats e.1.price)))
      (tick floats "BTCUSDT" "90" opened).0.orders
    ≡ true
tick_fills_example = tick_fills floats "BTCUSDT" "90" opened opened-IsValid
