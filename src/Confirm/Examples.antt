-- ===== src/Confirm/Examples.antt =====
-- The theorems on confirm.ts at a store with one token, and at a patch with a key of each kind.
use trade_gate.Prelude.{
  ◌+◌, ◌<◌, ◌≡◌, refl, Bool, true, false, some, String, List, [], ◌∷◌, arith, contains, string_eq,
}
use trade_gate.Dict
use trade_gate.Confirm.{
  intent, confirm_ttl_ms, Tokens, IssueRequest, new_token, ok, refused, confirm_unknown,
  confirm_mismatch, ConsumeRequest, consume, ConfirmEvent, issues, consumes, confirm_run,
}
use trade_gate.Confirm.Once.{consume_once}
use trade_gate.Confirm.Issued.{Made, consume-Made}
use trade_gate.Confirm.Patch.{split_workflow_patch}
use trade_gate.Confirm.Patch.Routes.{
  may_apply, may_propose, passed, is_refused, split_workflow_patch_routes,
}

abbrev request : IssueRequest
request = record {
  kind = intent;
  target_id = "i1";
  fingerprint = "f";
  nonce = "n";
  sweep_now = 1_000;
  issued_now = 1_000;
  expires_now = 1_000;
}

abbrev use_of : String → ConsumeRequest
use_of fingerprint = record {
  nonce = some "n";
  kind = intent;
  target_id = "i1";
  fingerprint = fingerprint;
  sweep_now = 2_000;
  check_now = 2_001;
}

abbrev history : List ConfirmEvent
history = issues request ∷ []

abbrev store : Tokens
store = confirm_run [] history

accepted : (consume (use_of "f") store).1 ≡ ok
unfolding consume confirm_run Dict.get Dict.set
accepted = refl

store_keys : Dict.HasUniqueKeys store
unfolding confirm_run Dict.get Dict.set
store_keys = (refl, tt)

consume_once_example :
    (consume
      (use_of "f")
      (confirm_run (consume (use_of "f") store).0 (consumes (use_of "g") ∷ []))).1
    ≡ refused confirm_unknown
consume_once_example =
    consume_once (use_of "f") (use_of "f") store (consumes (use_of "g") ∷ []) "n" accepted refl refl
      tt

consume-Made_example :
    (q : IssueRequest) × Made history q
    × (some "n" ≡ some q.nonce)
    × (q.kind ≡ intent)
    × (q.target_id ≡ "i1")
    × (q.fingerprint ≡ "f")
    × (2_001 < q.expires_now + confirm_ttl_ms)
consume-Made_example = consume-Made history (use_of "f") accepted

mismatched : (consume (use_of "g") store).1 ≡ refused confirm_mismatch
unfolding consume confirm_run Dict.get Dict.set
mismatched = refl

stored : Dict.get "n" store ≡ some (new_token request)
unfolding confirm_run Dict.get Dict.set
stored = refl

in_time : 2_000 < (new_token request).expires_at
unfolding new_token
in_time = omega arith

in_time_check : 2_001 < (new_token request).expires_at
unfolding new_token
in_time_check = omega arith

abbrev patch : List (String × Bool)
patch = ("narrate", true) ∷ ("paused", false) ∷ ("leverage", true) ∷ []

abbrev is_true : Bool → Bool
is_true b = b

patch_keys : Dict.HasUniqueKeys patch
unfolding Dict.get
patch_keys = (refl, (refl, (refl, tt)))

split_workflow_patch_routes_example :
    let s = split_workflow_patch is_true (some patch) in
    (Dict.get "paused" s.direct
      ≡ passed is_true (may_apply is_true) "paused" (Dict.get "paused" patch))
    × (Dict.get "paused" s.proposal
        ≡ passed is_true (may_propose is_true) "paused" (Dict.get "paused" patch))
    × (contains "paused" s.refused ≡ is_refused is_true "paused" (Dict.get "paused" patch))
split_workflow_patch_routes_example = split_workflow_patch_routes is_true patch "paused" patch_keys
