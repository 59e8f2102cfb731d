-- ===== src/Security/Replay.antt =====
-- Replay of signed requests in security.py: what the table of nonces prevents, and what it does not.
use text.Mathlib.TextEquality.{eq_iff}
use llm_sentinel.Prelude.{
  ℕ, ◌+◌, ◌/◌, ◌≤◌, ◌<◌, ◌≡◌, ◌≢◌, refl, sym, ap, ◌∙◌, subst, String, true, false, List, [], ◌∷◌,
  Option, none, some, arith, ◌==◌, string_eq, Dict, lookup, insert, All, lookup-insert,
  lookup-insert_self,
}
use llm_sentinel.Breaker.State.{seconds}
use llm_sentinel.Security.Signing.{
  Timestamp, malformed, at_second, before_epoch, Request, SigningSettings, Verdict, accepted,
  is_skipped, age, cleanup_old_nonces, use_nonce, check_nonce, check_headers, sign_dispatch,
}

-- A nonce that has not run out stays in the table.
cleanup_keeps :
    (max_age now v : ℕ) (nonce : String) (used : Dict String ℕ)
    → lookup nonce used ≡ some v
    → now ≤ v + seconds max_age
    → lookup nonce (cleanup_old_nonces max_age now used) ≡ some v
unfolding cleanup_old_nonces
cleanup_keeps max_age now v nonce [] e h = cc
cleanup_keeps max_age now v nonce ((k, w) ∷ used) e h =
    ground (arith, cleanup_keeps max_age now v nonce used)

cleanup_adds_none :
    (max_age now : ℕ) (nonce : String) (used : Dict String ℕ)
    → lookup nonce used ≡ none
    → lookup nonce (cleanup_old_nonces max_age now used) ≡ none
unfolding cleanup_old_nonces
cleanup_adds_none max_age now nonce [] e = refl
cleanup_adds_none max_age now nonce ((k, w) ∷ used) e =
    ground (arith, cleanup_adds_none max_age now nonce used)

-- A nonce that has run out leaves the table.
cleanup_drops :
    (max_age now v : ℕ) (nonce : String) (used : Dict String ℕ)
    → lookup nonce used ≡ none
    → v + seconds max_age < now
    → lookup nonce (cleanup_old_nonces max_age now (insert nonce v used)) ≡ none
unfolding cleanup_old_nonces
cleanup_drops max_age now v nonce [] e h = ground arith
cleanup_drops max_age now v nonce ((k, w) ∷ used) e h =
    ground (arith, cleanup_drops max_age now v nonce used)

-- Requests at their times, one after the other.
abbrev pub run : SigningSettings → List (ℕ × Request) → Dict String ℕ → Dict String ℕ
run settings [] used = used
run settings ((now, r) ∷ rs) used = run settings rs (sign_dispatch settings now r used).1

same_key :
    (other nonce : String) (d : Dict String ℕ)
    → (other == nonce) ≡ true
    → lookup other d ≡ lookup nonce d
same_key other nonce d h = ap (λ (k : String). lookup k d) ((eq_iff other nonce).0 h)

-- A later request leaves the entry of a nonce that has not run out.
use_nonce-keeps :
    (settings : SigningSettings) (now v old : ℕ) (nonce other : String) (used : Dict String ℕ)
    → lookup nonce used ≡ some v
    → now ≤ v + seconds settings.max_age
    → lookup nonce (use_nonce settings now old other used).1 ≡ some v
unfolding use_nonce
use_nonce-keeps settings now v old nonce other used e h =
    let kept = cleanup_old_nonces settings.max_age now used in
    ground (
      arith,
      cleanup_keeps settings.max_age now v nonce used e h,
      lookup-insert other nonce now kept,
      same_key other nonce kept,
    )

check_headers-keeps :
    (settings : SigningSettings) (now v : ℕ) (nonce : String) (t : Option Timestamp)
    (n s : Option String) (used : Dict String ℕ)
    → lookup nonce used ≡ some v
    → now ≤ v + seconds settings.max_age
    → lookup nonce (check_headers settings now t n s used).1 ≡ some v
unfolding check_headers check_nonce
check_headers-keeps settings now v nonce (some malformed) (some n) (some s) used e h = e
check_headers-keeps settings now v nonce (some (at_second t)) (some n) (some s) used e h =
    use_nonce-keeps settings now v (age (now / seconds 1) (at_second t)) nonce n used e h
check_headers-keeps settings now v nonce (some (before_epoch t)) (some n) (some s) used e h =
    use_nonce-keeps settings now v (age (now / seconds 1) (before_epoch t)) nonce n used e h
check_headers-keeps settings now v nonce none _ _ used e h = e
check_headers-keeps settings now v nonce (some t) none _ used e h = e
check_headers-keeps settings now v nonce (some t) (some n) none used e h = e

sign_dispatch-keeps :
    (settings : SigningSettings) (now v : ℕ) (nonce : String) (r : Request) (used : Dict String ℕ)
    → lookup nonce used ≡ some v
    → now ≤ v + seconds settings.max_age
    → lookup nonce (sign_dispatch settings now r used).1 ≡ some v
unfolding sign_dispatch
sign_dispatch-keeps settings now v nonce r used e h =
    ground
      (arith, check_headers-keeps settings now v nonce r.timestamp r.nonce r.signature used e h)

run-keeps :
    (settings : SigningSettings) (rs : List (ℕ × Request)) (v : ℕ) (nonce : String)
    (used : Dict String ℕ)
    → lookup nonce used ≡ some v
    → All (λ q. q.0 ≤ v + seconds settings.max_age) rs
    → lookup nonce (run settings rs used) ≡ some v
run-keeps settings [] v nonce used e a = e
run-keeps settings ((now, r) ∷ rs) v nonce used e a =
    run-keeps settings rs v nonce (sign_dispatch settings now r used).1
      (sign_dispatch-keeps settings now v nonce r used e a.0) a.1

-- What an accepted request has passed.
abbrev Passed :
    SigningSettings → ℕ → Option Timestamp → Option String → Dict String ℕ → Dict String ℕ → Type 0
Passed settings now t n used used' =
    (timestamp : Timestamp) × (nonce : String) × (t ≡ some timestamp)
    × (n ≡ some nonce)
    × (age (now / seconds 1) timestamp ≤ settings.max_age)
    × (lookup nonce (cleanup_old_nonces settings.max_age now used) ≡ none)
    × (lookup nonce used' ≡ some now)

use_nonce-accepted :
    (settings : SigningSettings) (now old : ℕ) (nonce : String) (used : Dict String ℕ)
    → (use_nonce settings now old nonce used).0 ≡ accepted
    → (old ≤ settings.max_age)
      × (lookup nonce (cleanup_old_nonces settings.max_age now used) ≡ none)
      × (lookup nonce (use_nonce settings now old nonce used).1 ≡ some now)
unfolding use_nonce
use_nonce-accepted settings now old nonce used acc =
    ground (arith, lookup-insert_self nonce now (cleanup_old_nonces settings.max_age now used))

check_headers-accepted :
    (settings : SigningSettings) (now : ℕ) (t : Option Timestamp) (n s : Option String)
    (used : Dict String ℕ)
    → (check_headers settings now t n s used).0 ≡ accepted
    → Passed settings now t n used (check_headers settings now t n s used).1
unfolding check_headers check_nonce
check_headers-accepted settings now (some malformed) (some n) (some s) used acc = cc
check_headers-accepted settings now (some (at_second t)) (some n) (some s) used acc =
    let (a, b, c) =
      use_nonce-accepted settings now (age (now / seconds 1) (at_second t)) n used acc in
    (at_second t, n, refl, refl, a, b, c)
check_headers-accepted settings now (some (before_epoch t)) (some n) (some s) used acc =
    let (a, b, c) =
      use_nonce-accepted settings now (age (now / seconds 1) (before_epoch t)) n used acc in
    (before_epoch t, n, refl, refl, a, b, c)
check_headers-accepted settings now none _ _ used acc = cc
check_headers-accepted settings now (some t) none _ used acc = cc
check_headers-accepted settings now (some t) (some n) none used acc = cc

-- An accepted request was not skipped, and is judged by its headers.
accepted_by_headers :
    (settings : SigningSettings) (now : ℕ) (r : Request) (used : Dict String ℕ)
    → (sign_dispatch settings now r used).0 ≡ accepted
    → sign_dispatch settings now r used
      ≡ check_headers settings now r.timestamp r.nonce r.signature used
unfolding sign_dispatch
accepted_by_headers settings now r used acc = ground arith

-- No request with a nonce that is in the table is accepted until the maximal age after the time the
-- nonce was used, whatever requests are made in between.
pub run-nonce_reused :
    (settings : SigningSettings) (rs : List (ℕ × Request)) (now v : ℕ) (r : Request)
    (nonce : String) (used : Dict String ℕ)
    → lookup nonce used ≡ some v
    → All (λ q. q.0 ≤ v + seconds settings.max_age) rs
    → now ≤ v + seconds settings.max_age
    → r.nonce ≡ some nonce
    → (sign_dispatch settings now r (run settings rs used)).0 ≢ accepted
run-nonce_reused settings rs now v r nonce used e a h n acc =
    let used' = run settings rs used in
    let same = accepted_by_headers settings now r used' acc in
    let (t, k, tt_, nn, fresh, gone, stored) =
      check_headers-accepted settings now r.timestamp r.nonce r.signature used'
        (sym (ap (λ (p : Verdict × Dict String ℕ). p.0) same) ∙ acc) in
    let kept =
      cleanup_keeps settings.max_age now v nonce used' (run-keeps settings rs v nonce used e a) h in
    let own : k ≡ nonce = cc in
    cc (ap (λ (x : String). lookup x (cleanup_old_nonces settings.max_age now used')) own)

-- Of an accepted request all of timestamp and nonce are there, the timestamp is within the maximal
-- age, and the nonce, which was not in the table after the cleanup, is there from now on with the
-- current time.
sign_dispatch-accepted :
    (settings : SigningSettings) (now : ℕ) (r : Request) (used : Dict String ℕ)
    → (sign_dispatch settings now r used).0 ≡ accepted
    → (timestamp : Timestamp) × (nonce : String) × (r.timestamp ≡ some timestamp)
      × (r.nonce ≡ some nonce)
      × (age (now / seconds 1) timestamp ≤ settings.max_age)
      × (lookup nonce (cleanup_old_nonces settings.max_age now used) ≡ none)
      × (lookup nonce (sign_dispatch settings now r used).1 ≡ some now)
sign_dispatch-accepted settings now r used acc =
    let same = accepted_by_headers settings now r used acc in
    subst (λ (p : Verdict × Dict String ℕ). Passed settings now r.timestamp r.nonce used p.1)
      (sym same)
      (check_headers-accepted settings now r.timestamp r.nonce r.signature used
        (sym (ap (λ (p : Verdict × Dict String ℕ). p.0) same) ∙ acc))

accepts :
    (settings : SigningSettings) (now t : ℕ) (r : Request) (nonce signature : String)
    (used : Dict String ℕ)
    → is_skipped r ≡ false
    → settings.required ≡ true
    → r.timestamp ≡ some (at_second t)
    → r.nonce ≡ some nonce
    → r.signature ≡ some signature
    → age (now / seconds 1) (at_second t) ≤ settings.max_age
    → lookup nonce (cleanup_old_nonces settings.max_age now used) ≡ none
    → sign_dispatch settings now r used
      ≡ (accepted, insert nonce now (cleanup_old_nonces settings.max_age now used))
unfolding sign_dispatch check_headers check_nonce use_nonce
accepts settings now t r nonce signature used s q rt rn rs a e = ground arith

-- Signing is required, and a request that is not skipped has all headers, with a nonce that is not
-- in the table. If its timestamp is within the maximal age now, and again at a later time at which
-- the nonce has run out, then it is accepted now, and accepted again as it stands at the later
-- time.
pub sign_dispatch-replayed :
    (settings : SigningSettings) (now later t : ℕ) (r : Request) (nonce signature : String)
    (used : Dict String ℕ)
    → is_skipped r ≡ false
    → settings.required ≡ true
    → r.timestamp ≡ some (at_second t)
    → r.nonce ≡ some nonce
    → r.signature ≡ some signature
    → lookup nonce used ≡ none
    → age (now / seconds 1) (at_second t) ≤ settings.max_age
    → now + seconds settings.max_age < later
    → age (later / seconds 1) (at_second t) ≤ settings.max_age
    → let (first, used') = sign_dispatch settings now r used in
      (first ≡ accepted) × ((sign_dispatch settings later r used').0 ≡ accepted)
sign_dispatch-replayed settings now later t r nonce signature used s q rt rn rs e a l b =
    let used' = insert nonce now (cleanup_old_nonces settings.max_age now used) in
    let first =
      accepts settings now t r nonce signature used s q rt rn rs a
        (cleanup_adds_none settings.max_age now nonce used e) in
    let second = accepts settings later t r nonce signature used' s q rt rn rs b (
      cleanup_drops settings.max_age later now nonce (cleanup_old_nonces settings.max_age now used)
        (cleanup_adds_none settings.max_age now nonce used e) l) in
    (
      ap (λ (p : Verdict × Dict String ℕ). p.0) first,
      ap (λ (p : Verdict × Dict String ℕ). (sign_dispatch settings later r p.1).0) first
          ∙ ap (λ (p : Verdict × Dict String ℕ). p.0) second,
    )
