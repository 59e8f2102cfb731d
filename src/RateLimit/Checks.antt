-- ===== src/RateLimit/Checks.antt =====
-- The rate and token limits of clients, addresses and the whole gateway (rate_limiter.py).
use Prim.Native.String.{◌++◌ as append}
use llm_sentinel.Prelude.{
  ℕ, ◌+◌, ◌-◌, ◌≡◌, String, Bool, true, false, [], ◌∷◌, ◌==◌, string_eq, if◌then◌else◌, arith,
  lookup,
}
use llm_sentinel.Breaker.State.{seconds}
use llm_sentinel.Store.Ops.{Store, zremrangebyscore, zrangebyscore, zadd}
use llm_sentinel.Store.Others.{
  zremrangebyscore-other, zrangebyscore-other, zadd-other, expire-other,
}
use llm_sentinel.RateLimit.Window.{
  Stamp, stamp_eq, window, sliding_window_check, token_window_check,
}

-- `is_testing` and the limits of config.py.
pub record RateSettings : Type 0 where
  pub is_testing : Bool
  pub global_rate_limit_rpm : ℕ
  pub ip_rate_limit_rpm : ℕ
  pub global_rate_limit_tpm : ℕ

abbrev Check : Type 0
Check = Stamp → Store Stamp → (Bool × ℕ) × Store Stamp

-- In tests nothing is limited.
abbrev unless_testing : RateSettings → Check → Check
unless_testing settings check r s = if settings.is_testing then ((true, 0), s) else check r s

abbrev client_key : String → String
client_key client_id = append "rl:client:" client_id

unfoldable pub check_client_rate : RateSettings → String → ℕ → Check
check_client_rate settings client_id limit_rpm =
    unless_testing settings (sliding_window_check (client_key client_id) limit_rpm)

unfoldable pub check_global_rate : RateSettings → Check
check_global_rate settings =
    unless_testing settings (sliding_window_check "rl:global" settings.global_rate_limit_rpm)

unfoldable pub check_ip_rate : RateSettings → String → Check
check_ip_rate settings ip =
    unless_testing settings (sliding_window_check (append "rl:ip:" ip) settings.ip_rate_limit_rpm)

unfoldable check_client_token_rate : RateSettings → String → ℕ → Check
check_client_token_rate settings client_id tpm_limit =
    unless_testing settings (token_window_check (append "trl:client:" client_id) tpm_limit)

unfoldable check_global_token_rate : RateSettings → Check
check_global_token_rate settings =
    unless_testing settings (token_window_check "trl:global" settings.global_rate_limit_tpm)

module _ (key j : String) (n : (key == j) ≡ false) where
  sliding_window_check-other :
      (limit : ℕ) (r : Stamp) (s : Store Stamp)
      → lookup j (sliding_window_check key limit r s).1 ≡ lookup j s
  unfolding sliding_window_check
  sliding_window_check-other limit r s =
      let now : ℕ = r.time in
      let start : ℕ = now - seconds window in
      let s1 = (zremrangebyscore key 0 start s).1 in
      let s2 = (zrangebyscore now key start now s1).1 in
      let s3 = (zadd now key ((r, now) ∷ []) s2).1 in
      ground (
        arith,
        zremrangebyscore-other key j n 0 start s,
        zrangebyscore-other key j n now start now s1,
        zadd-other key j n now ((r, now) ∷ []) s2,
        expire-other key j n now (window + 10) s3,
      )

-- Clients do not count against each other: a request of one leaves the window of every client with
-- another key as it was.
check_client_rate-other :
    (settings : RateSettings) (client other : String) (limit : ℕ) (r : Stamp) (s : Store Stamp)
    → (client_key client == client_key other) ≡ false
    → lookup (client_key other) (check_client_rate settings client limit r s).1
      ≡ lookup (client_key other) s
unfolding check_client_rate
check_client_rate-other settings client other limit r s n =
    ground (arith, sliding_window_check-other (client_key client) (client_key other) n limit r s)
