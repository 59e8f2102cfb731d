-- ===== src/Breaker/Outage.antt =====
-- The state machine of circuit_breaker.py: its transitions, when it opens, how long it stays open.
use llm_sentinel.Prelude.{
  ℕ, ◌+◌, ◌≤◌, ◌<◌, ◌≡◌, ◌≢◌, refl, subst, sym, true, false, List, [], ◌∷◌, arith, All, length, ◌↔◌,
}
use llm_sentinel.Breaker.State.{
  CircuitBreaker, closed, opened, seconds, is_available, record_failure, Event, polls, succeeds,
  fails, resets, apply, allowed, IsValid,
}

-- Every call but a manual reset keeps the breaker's state or moves it along a documented transition:
-- never from closed to half-open, and never from open to closed.
apply-allowed :
    (e : Event) (b : CircuitBreaker)
    → ((now : ℕ) → e ≢ resets now)
    → allowed b.state (apply e b).state ≡ true
unfolding apply
apply-allowed (polls now) b h = ground arith
apply-allowed (succeeds now) b h = ground arith
apply-allowed (fails now) b h = ground arith
apply-allowed (resets now) b h = absurd (h now refl)

-- Every call keeps a breaker valid: its threshold is positive, and while it is closed its failure
-- count is below the threshold.
apply-IsValid : (e : Event) (b : CircuitBreaker) → IsValid b → IsValid (apply e b)
unfolding apply
apply-IsValid (polls now) b v = record { positive = ground arith; counted = ground arith }
apply-IsValid (succeeds now) b v = record { positive = ground arith; counted = ground arith }
apply-IsValid (fails now) b v = record { positive = ground arith; counted = ground arith }
apply-IsValid (resets now) b v = record { positive = ground arith; counted = ground arith }

-- A breaker refuses a request exactly while it is open and its recovery timeout has not passed.
is_available_iff :
    (now : ℕ) (b : CircuitBreaker)
    → ((is_available now b).1 ≡ false)
      ↔ ((b.state ≡ opened) × (now < b.opened_at + seconds b.recovery_timeout))
unfolding is_available
is_available_iff now b = ground arith

-- Requests that fail one after the other.
abbrev pub fail_all : List ℕ → CircuitBreaker → CircuitBreaker
fail_all [] b = b
fail_all (t ∷ ts) b = fail_all ts (record_failure t b)

-- A closed breaker opens at the failure that brings its count to the threshold, and not before; it
-- records the time of that failure as its opening.
pub fail_all-opens :
    (ts : List ℕ) (t : ℕ) (b : CircuitBreaker)
    → b.state ≡ closed
    → b.failure_count + length ts + 1 ≡ b.failure_threshold
    → ((fail_all ts b).state ≡ closed)
      × ((record_failure t (fail_all ts b)).state ≡ opened)
      × ((record_failure t (fail_all ts b)).opened_at ≡ t)
unfolding record_failure
fail_all-opens [] t b s n = ground arith
fail_all-opens (x ∷ ts) t b s n = ground (arith, fail_all-opens ts t (record_failure x b))

-- What happens to an open breaker within the timeout that began at `since`, short of a reset.
abbrev pub Within : ℕ → ℕ → Event → Type 0
Within since timeout (polls now) = (since ≤ now) × (now < since + seconds timeout)
Within since timeout (succeeds now) = (since ≤ now) × (now < since + seconds timeout)
Within since timeout (fails now) = (since ≤ now) × (now < since + seconds timeout)
Within since timeout (resets now) = ⊥

apply-polls_early :
    (now since : ℕ) (b : CircuitBreaker)
    → b.state ≡ opened
    → since ≤ b.opened_at
    → now < since + seconds b.recovery_timeout
    → apply (polls now) b ≡ b
unfolding apply
apply-polls_early now since b s h l = ground arith

apply-succeeds_opened :
    (now : ℕ) (b : CircuitBreaker) → b.state ≡ opened → apply (succeeds now) b ≡ b
unfolding apply
apply-succeeds_opened now b s = ground arith

apply-fails_opened :
    (now since : ℕ) (b : CircuitBreaker)
    → b.state ≡ opened
    → since ≤ b.opened_at
    → since ≤ now
    → let c = apply (fails now) b in
      (c.state ≡ opened) × (c.recovery_timeout ≡ b.recovery_timeout) × (since ≤ c.opened_at)
unfolding apply
apply-fails_opened now since b s h l = ground arith

abbrev pub apply_all : List Event → CircuitBreaker → CircuitBreaker
apply_all [] b = b
apply_all (e ∷ es) b = apply_all es (apply e b)

-- An open breaker stays open through any polls, successes and failures that fall within the
-- recovery timeout after a time not later than its opening, and its opening stays not earlier than
-- that time.
pub apply_all-opened :
    (es : List Event) (since : ℕ) (b : CircuitBreaker)
    → b.state ≡ opened
    → since ≤ b.opened_at
    → All (Within since b.recovery_timeout) es
    → ((apply_all es b).state ≡ opened) × (since ≤ (apply_all es b).opened_at)
unfolding apply
apply_all-opened [] since b s h a = (s, h)
apply_all-opened (polls now ∷ es) since b s h a =
    subst (λ c. ((apply_all es c).state ≡ opened) × (since ≤ (apply_all es c).opened_at))
      (sym (apply-polls_early now since b s h a.0.1)) (apply_all-opened es since b s h a.1)
apply_all-opened (succeeds now ∷ es) since b s h a =
    subst (λ c. ((apply_all es c).state ≡ opened) × (since ≤ (apply_all es c).opened_at))
      (sym (apply-succeeds_opened now b s)) (apply_all-opened es since b s h a.1)
apply_all-opened (fails now ∷ es) since b s h a =
    let (s', timeout, h') = apply-fails_opened now since b s h a.0.0 in
    apply_all-opened es since (apply (fails now) b) s' h'
      (subst (λ r. All (Within since r) es) (sym timeout) a.1)
apply_all-opened (resets now ∷ es) since b s h a = absurd a.0
