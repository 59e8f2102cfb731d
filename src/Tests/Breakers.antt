-- ===== src/Tests/Breakers.antt =====
-- The theorems on circuit_breaker.py at a breaker that opens at three failures, for one minute.
use llm_sentinel.Prelude.{ℕ, ◌≤◌, ◌≡◌, ◌≢◌, refl, List, [], ◌∷◌, arith, string_eq}
use llm_sentinel.Breaker.State.{
  CbState, closed, opened, half_open, CircuitBreaker, new_breaker, is_available, record_failure,
  Event, polls, succeeds, fails, resets, apply, allowed, IsValid, seconds,
}
use llm_sentinel.Breaker.State
use llm_sentinel.Breaker.Outage.{fail_all, apply_all, fail_all-opens, apply_all-opened}
use llm_sentinel.Breaker.Manager.{Manager, find_breaker, on_breaker, find_breaker-on_breaker}

abbrev breaker : CircuitBreaker
breaker = record {
  provider = "openai";
  key_index = 0;
  failure_threshold = 3;
  recovery_timeout = 60;
  state = closed;
  failure_count = 0;
  last_failure_time = 0;
  opened_at = 0;
}

-- Opened at microsecond 20.
abbrev tripped : CircuitBreaker
tripped = record breaker {
  state = opened;
  failure_count = 3;
  last_failure_time = 20;
  opened_at = 20;
}

abbrev manager : Manager
manager = record {
  failure_threshold = 3;
  recovery_timeout = 60;
  breakers = ("openai:0", tripped) ∷ [];
}

fail_all-opens_example :
    ((fail_all (5 ∷ 6 ∷ []) breaker).state ≡ closed)
    × ((record_failure 7 (fail_all (5 ∷ 6 ∷ []) breaker)).state ≡ opened)
    × ((record_failure 7 (fail_all (5 ∷ 6 ∷ []) breaker)).opened_at ≡ 7)
fail_all-opens_example = fail_all-opens (5 ∷ 6 ∷ []) 7 breaker refl refl

abbrev outage : List Event
outage = polls 30 ∷ succeeds 40 ∷ fails 50 ∷ polls 60 ∷ []

apply_all-opened_example :
    ((apply_all outage tripped).state ≡ opened) × (20 ≤ (apply_all outage tripped).opened_at)
apply_all-opened_example = apply_all-opened outage 20 tripped refl (omega arith) (
  (omega arith, omega arith),
  ((omega arith, omega arith), ((omega arith, omega arith), ((omega arith, omega arith), tt))),
)

polls-ne-resets : (now : ℕ) → polls 30 ≢ resets now
polls-ne-resets now h = cc

breaker-IsValid : IsValid breaker
breaker-IsValid = record { positive = omega arith; counted = λ h. omega arith }

find_breaker-on_breaker_example :
    find_breaker "openai" 0 (on_breaker "openai" 0 State.reset manager)
    ≡ State.reset (find_breaker "openai" 0 manager)
find_breaker-on_breaker_example = find_breaker-on_breaker "openai" 0 State.reset manager
