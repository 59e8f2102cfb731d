-- ===== src/Security/Signing.antt =====
-- RequestSigningMiddleware of security.py, with its table of used nonces.
use text.Mathlib.Text.{starts_with}
use llm_sentinel.Prelude.{
  ℕ, ◌+◌, ◌-◌, ◌/◌, String, Bool, true, not, Option, some, leb, ltb, ◌==◌, string_eq, if◌then◌else◌,
  Dict, insert, contains, select,
}
use llm_sentinel.Breaker.State.{seconds}

-- What `int` makes of the text of X-Timestamp: it refuses it, or reads a number, which may be
-- negative.
pub data Timestamp : Type 0 where
  malformed : Timestamp
  at_second : ℕ → Timestamp
  before_epoch : ℕ → Timestamp

-- A header is missing, or empty, or has a value; the first two count alike.
pub record Request : Type 0 where
  pub path : String
  pub method : String
  pub timestamp : Option Timestamp
  pub nonce : Option String
  pub signature : Option String

pub record SigningSettings : Type 0 where
  pub required : Bool
  pub max_age : ℕ

-- Passed on unchecked, passed on with the signing data stored, or refused with 401.
pub data Verdict : Type 0 where
  unchecked : Verdict
  accepted : Verdict
  missing_headers bad_timestamp expired nonce_reused : Verdict

abbrev pub is_skipped : Request → Bool
is_skipped r =
    if not (starts_with r.path "/v1/")
    then true
    else if r.method == "OPTIONS"
    then true
    else if r.path == "/v1/auth/token"
    then true
    else if r.path == "/v1/auth/ldap-login"
    then true
    else r.path == "/v1/auth/refresh"

-- `abs(now - timestamp)` in seconds.
abbrev pub age : ℕ → Timestamp → ℕ
age now malformed = 0
age now (at_second t) = (now - t) + (t - now)
age now (before_epoch n) = now + n

-- `_cleanup_old_nonces`
unfoldable pub cleanup_old_nonces : ℕ → ℕ → Dict String ℕ → Dict String ℕ
cleanup_old_nonces max_age now used = select (λ e. leb now (e.1 + seconds max_age)) used

-- The check of the age of the timestamp, in seconds, and of the nonce.
unfoldable pub use_nonce :
    SigningSettings → ℕ → ℕ → String → Dict String ℕ → Verdict × Dict String ℕ
use_nonce settings now seconds_old nonce used =
    let kept = cleanup_old_nonces settings.max_age now used in
    if ltb settings.max_age seconds_old
    then (expired, used)
    else if contains nonce kept
    then (nonce_reused, kept)
    else (accepted, insert nonce now kept)

-- `dispatch` from the timestamp on, with all three headers there.
unfoldable pub check_nonce :
    SigningSettings → ℕ → Timestamp → String → Dict String ℕ → Verdict × Dict String ℕ
check_nonce settings now malformed nonce used = (bad_timestamp, used)
check_nonce settings now timestamp nonce used =
    use_nonce settings now (age (now / seconds 1) timestamp) nonce used

-- `dispatch` from the headers on.
unfoldable pub check_headers :
    SigningSettings
    → ℕ
    → Option Timestamp
    → Option String
    → Option String
    → Dict String ℕ
    → Verdict × Dict String ℕ
check_headers settings now (some timestamp) (some nonce) (some signature) used =
    check_nonce settings now timestamp nonce used
check_headers settings now _ _ _ used = (missing_headers, used)

unfoldable pub sign_dispatch :
    SigningSettings → ℕ → Request → Dict String ℕ → Verdict × Dict String ℕ
sign_dispatch settings now r used =
    if is_skipped r
    then (unchecked, used)
    else if not settings.required
    then (unchecked, used)
    else check_headers settings now r.timestamp r.nonce r.signature used
