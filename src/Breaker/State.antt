-- ===== src/Breaker/State.antt =====
-- class CircuitBreaker of circuit_breaker.py.
use llm_sentinel.Prelude.{ℕ, ◌+◌, ◌*◌, ◌<◌, ◌≡◌, Bool, true, false, String, leb, if◌then◌else◌}

-- A number of seconds, in microseconds.
abbrev pub seconds : ℕ → ℕ
seconds n = n * 1000000

-- CBState: CLOSED, OPEN, HALF_OPEN.
pub data CbState : Type 0 where
  closed opened half_open : CbState

pub record CircuitBreaker : Type 0 where
  pub provider : String
  pub key_index : ℕ
  pub failure_threshold : ℕ
  pub recovery_timeout : ℕ
  pub state : CbState
  pub failure_count : ℕ
  pub last_failure_time : ℕ
  pub opened_at : ℕ

unfoldable pub new_breaker : String → ℕ → ℕ → ℕ → CircuitBreaker
new_breaker provider key_index failure_threshold recovery_timeout = record {
  provider = provider;
  key_index = key_index;
  failure_threshold = failure_threshold;
  recovery_timeout = recovery_timeout;
  state = closed;
  failure_count = 0;
  last_failure_time = 0;
  opened_at = 0;
}

-- The property `state`: an open breaker turns half-open once its timeout has passed.
unfoldable pub read_state : ℕ → CircuitBreaker → CircuitBreaker
read_state now b = elim b.state [
  | opened ↦
      if leb (b.opened_at + seconds b.recovery_timeout) now
      then record b { state = half_open }
      else b
  | _ ↦ b
]

-- `self.state != CBState.OPEN`, with the breaker that the property leaves.
unfoldable pub is_available : ℕ → CircuitBreaker → CircuitBreaker × Bool
unfolding read_state
is_available now b = let b' = read_state now b in (b', elim b'.state [ opened ↦ false | _ ↦ true ])

unfoldable pub record_success : CircuitBreaker → CircuitBreaker
record_success b = elim b.state [ opened ↦ b | _ ↦ record b { state = closed; failure_count = 0 } ]

unfoldable pub record_failure : ℕ → CircuitBreaker → CircuitBreaker
record_failure now b =
    let counted : CircuitBreaker = record b {
      failure_count = b.failure_count + 1;
      last_failure_time = now;
    } in
    let tripped : CircuitBreaker = record counted { state = opened; opened_at = now } in
    elim b.state [
      | half_open ↦ tripped
      | _ ↦ if leb b.failure_threshold (b.failure_count + 1) then tripped else counted
    ]

unfoldable pub reset : CircuitBreaker → CircuitBreaker
reset b = record b { state = closed; failure_count = 0; opened_at = 0 }

-- A call on the breaker at a time.
pub data Event : Type 0 where
  polls succeeds fails resets : ℕ → Event

unfoldable pub apply : Event → CircuitBreaker → CircuitBreaker
unfolding is_available record_success record_failure reset
apply (polls now) b = (is_available now b).0
apply (succeeds now) b = record_success b
apply (fails now) b = record_failure now b
apply (resets now) b = reset b

-- What the class documents: CLOSED to OPEN, OPEN to HALF_OPEN, HALF_OPEN to CLOSED or OPEN.
abbrev pub allowed : CbState → CbState → Bool
allowed closed half_open = false
allowed opened closed = false
allowed _ _ = true

-- A closed breaker has counted fewer failures than its threshold.
pub record IsValid (b : CircuitBreaker) : Type 0 where
  pub positive : 0 < b.failure_threshold
  pub counted : b.state ≡ closed → b.failure_count < b.failure_threshold
