-- ===== src/Runtime/Proposals/Examples.antt =====
-- The theorems on the settings and their proposals at a desk with a rejected proposal, and a chat that
-- proposes a new watchlist.
use trade_gate.Prelude.{
  codes, ℕ, ◌≡◌, refl, ◌⊎◌, false, none, some, [], ◌∷◌, arith, List, String, string_eq, nat_eq,
  length, ◌==◌,
}
use mathlib.Core.Bool.{decide}
use trade_gate.Dict
use trade_gate.Numbers.{Numbers}
use trade_gate.Numbers.Whole.{look_up, whole}
use trade_gate.Threads.Types.{paper}
use trade_gate.Workflow.Values.{Value, text, number, array, end, item, Language}
use trade_gate.Workflow.Types.{Workflow, default_workflow}
use trade_gate.Workflow.Fields.{Patch}
use trade_gate.Runtime.Settings.{Setting, Held, set_workflow}
use trade_gate.Runtime.Settings.Sound.{IsSound, set_workflow-IsSound}
use trade_gate.Runtime.Proposals.{
  ProposalStatus-discrete, rejected, WorkflowProposal, Desk, IssueTimes, ApplyTimes, DeskEvent,
  proposes, issues, applies, desk_step, desk_run, status_eq, pending,
}
use trade_gate.Runtime.Proposals.Final.{desk_run-final}
use trade_gate.Runtime.Proposals.History.{history}
use trade_gate.Runtime.Proposals.Consent.{IsSetting, IsAllowed, desk_step-consented}

abbrev floats : Numbers
floats = whole (look_up (("3", 3) ∷ ("4", 4) ∷ ("300", 300) ∷ []))

abbrev plain_text : Value floats → String
plain_text (text s) = s
plain_text _ = ""

abbrev plain_number : Value floats → ℕ
plain_number (number n) = n
plain_number _ = 0

abbrev language : Language floats
language = record {
  to_text = plain_text;
  to_number = plain_number;
  trim = λ s. s;
  to_upper_case = λ s. s;
  length_of = λ s. length (codes s);
  slice_to = λ n s. s;
}

abbrev current : Workflow floats
current = default_workflow floats "" (("claude", "claude") ∷ [])

abbrev held : Held floats
held = record { workflow = current; saved = current }

abbrev patch : Patch floats
patch = ("watchlist", array (item (text "BTCUSDT") end)) ∷ []

set_workflow-IsSound_example :
    IsSound floats paper (set_workflow floats language paper patch 1_000 held).held
set_workflow-IsSound_example =
    set_workflow-IsSound floats language paper patch 1_000 held refl (omega arith, omega arith)

abbrev turned_down : WorkflowProposal floats
turned_down = record {
  id = "p1";
  created_at = 1_000;
  expires_at = 1_801_000;
  status = rejected;
  session_id = none;
  patch = patch;
  before = [];
  after = [];
  errors = [];
  resolved_at = some 2_000;
}

abbrev desk : Desk floats
desk = record { proposals = ("p1", turned_down) ∷ []; tokens = []; held = held }

abbrev hash : String → Patch floats → List (String × Setting) → String
hash id content settings = id

abbrev Event : Type 0
Event = DeskEvent floats language paper hash

abbrev issue_times : IssueTimes floats language paper hash
issue_times = record {
  nonce = "n";
  check_now = 3_000;
  sweep_now = 3_000;
  issued_now = 3_000;
  expires_now = 3_000;
}

abbrev apply_times : ApplyTimes floats language paper hash
apply_times = record {
  check_now = 4_000;
  sweep_now = 4_000;
  token_now = 4_000;
  patch_now = 4_000;
  resolved_now = 4_000;
}

abbrev events : List Event
events = proposes patch none "p2" 2_000 2_000 ∷ issues "p2" issue_times ∷ []

stands : Dict.get "p1" desk.proposals ≡ some turned_down
unfolding Dict.get
stands = refl

settled : (turned_down.status == pending) ≡ false
unfolding ProposalStatus-discrete decide
settled = refl

desk_run-final_example :
    Dict.get "p1" (desk_run floats language paper hash desk events).proposals ≡ some turned_down
desk_run-final_example =
    desk_run-final floats language paper hash desk events "p1" turned_down stands settled (refl, tt)

abbrev confirms : Event
confirms = applies "p2" (some "n") apply_times

desk_step-consented_example :
    let before = desk_run floats language paper hash desk events in
    let after = desk_step floats language paper hash before confirms in
    IsSetting floats language paper hash confirms
    ⊎ ((after.held ≡ before.held)
        ⊎ IsAllowed floats language paper hash
            (history floats language paper hash desk events)
            confirms
            before
            after)
desk_step-consented_example =
    desk_step-consented floats language paper hash desk events confirms refl
