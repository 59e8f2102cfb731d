-- ===== src/Tests/Guards.antt =====
-- The theorems on security.py and data_filter.py at small inputs.
use llm_sentinel.Prelude.{
  ℕ, ◌+◌, ◌≡◌, ◌≢◌, refl, String, true, List, [], ◌∷◌, none, some, arith, ◌==◌, string_eq,
  if◌then◌else◌, lookup, Dict,
}
use llm_sentinel.Breaker.State.{seconds}
use llm_sentinel.Security.BruteForce.{Guard, BanSettings, dispatch}
use llm_sentinel.Security.Bans.{fail_all, fail_all-bans}
use llm_sentinel.Security.Signing.{at_second, Request, SigningSettings, accepted, sign_dispatch}
use llm_sentinel.Security.Replay.{run, run-nonce_reused, sign_dispatch-replayed}
use llm_sentinel.Proxy.Tokens.{plain_text, Message}
use llm_sentinel.Filter.Patterns.{Pattern, Subn, Search, apply_patterns, sanitize_ssh_output}
use llm_sentinel.Filter.Masked.{Sound, sanitize_ssh_output-apply_patterns}

abbrev ban : BanSettings
ban = record { threshold = 3; duration = 60 }

abbrev open_guard : Guard
open_guard = record { failures = []; bans = [] }

fail_all-bans_example :
    (lookup "10.0.0.1" (fail_all ban "10.0.0.1" "/admin/login" (5 ∷ 6 ∷ []) open_guard).bans ≡ none)
    × (lookup "10.0.0.1"
          (dispatch ban 7 7 "10.0.0.1" "/admin/login" true
            (fail_all ban "10.0.0.1" "/admin/login" (5 ∷ 6 ∷ []) open_guard)).1.bans
        ≡ some (7 + seconds 60))
fail_all-bans_example =
    fail_all-bans ban 5 7 (5 ∷ 6 ∷ []) "10.0.0.1" "/admin/login" open_guard refl refl tt
      ((omega arith, omega arith), ((omega arith, omega arith), tt)) (omega arith, omega arith) refl

abbrev signing : SigningSettings
signing = record { required = true; max_age = 300 }

abbrev request : ℕ → Request
request t = record {
  path = "/v1/chat";
  method = "POST";
  timestamp = some (at_second t);
  nonce = some "n1";
  signature = some "s1";
}

-- The nonce was used at second 1000; the request comes again at second 1300.
run-nonce_reused_example :
    (sign_dispatch signing 1300000000
      (request 1290)
      (run signing ((1200000000, request 1200) ∷ []) (("n1", 1000000000) ∷ []))).0
    ≢ accepted
run-nonce_reused_example =
    run-nonce_reused signing ((1200000000, request 1200) ∷ []) 1300000000 1000000000 (request 1290)
      "n1" (("n1", 1000000000) ∷ []) refl (omega arith, tt) (omega arith) refl

abbrev no_nonces : Dict String ℕ
no_nonces = []

-- A timestamp 200 seconds ahead, sent again 301 seconds later.
sign_dispatch-replayed_example :
    let (first, used) = sign_dispatch signing 1000000000 (request 1200) no_nonces in
    (first ≡ accepted) × ((sign_dispatch signing 1301000000 (request 1200) used).0 ≡ accepted)
sign_dispatch-replayed_example =
    sign_dispatch-replayed signing 1000000000 1301000000 1200 (request 1200) "n1" "s1" no_nonces
      refl refl refl refl refl refl (omega arith) (omega arith) (omega arith)

-- An expression that is a whole text, replaced where it is the text.
abbrev whole_text : Subn
whole_text flags pattern replacement text =
    if text == pattern then some (replacement, 1) else some (text, 0)

abbrev is_text : Search
is_text flags pattern text = some (text == pattern)

whole_text-kept : (f p r t t' : String) → whole_text f p r t ≡ some (t', 0) → t' ≡ t
whole_text-kept f p r t t' h = ground arith

is_text-compiles : (f p r t : String) → is_text f p t ≡ none → whole_text f p r t ≡ none
is_text-compiles f p r t h = cc

whole_text-Sound : Sound whole_text is_text
whole_text-Sound = (whole_text-kept, is_text-compiles)

abbrev patterns : List Pattern
patterns =
    record {
      name = some "pin";
      pattern = "1234";
      flags = none;
      replacement = none;
      is_active = none;
    }
    ∷ []

abbrev chat : List Message
chat =
    record { role = some "user"; content = plain_text "hello" }
    ∷ record { role = some "assistant"; content = plain_text "hi" }
    ∷ []

sanitize_ssh_output-apply_patterns_example :
    (sanitize_ssh_output whole_text is_text patterns "1234" []).0
    ≡ (apply_patterns whole_text patterns "1234" 0).0
sanitize_ssh_output-apply_patterns_example =
    sanitize_ssh_output-apply_patterns whole_text is_text patterns "1234" [] 0 whole_text-Sound
