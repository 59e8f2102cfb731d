-- ===== src/Tests/Limits.antt =====
-- The theorems on rate_limiter.py and the in-memory store at short runs.
use llm_sentinel.Prelude.{
  ℕ, ◌-◌, ◌≤◌, ◌≡◌, refl, String, false, List, [], ◌∷◌, arith, string_eq, nat_eq, length,
}
use llm_sentinel.Breaker.State.{seconds}
use llm_sentinel.RateLimit.Window.{Stamp, stamp_eq, window}
use llm_sentinel.RateLimit.Scored.{after}
use llm_sentinel.RateLimit.Limit.{admit, admit-limit}
use llm_sentinel.RateLimit.Slots.{
  Slots, enter, leave, Reach, here, next, Exact, acquire_client_slot, release_client_slot,
  Reach-Exact,
}
use llm_sentinel.RateLimit.Refined.{admit_spec, admit-admit_spec}
use llm_sentinel.RateLimit.Checks.{RateSettings}

abbrev stamp : ℕ → ℕ → Stamp
stamp t m = record { time = t; mark = m }

abbrev burst : List Stamp
burst = stamp 60000000 1 ∷ stamp 60000000 2 ∷ stamp 90000000 1 ∷ []

-- Three requests within a minute under a limit of two.
admit-limit_example :
    length (after (100000000 - seconds window) (admit "rl:global" 2 burst [] [])) ≤ 2
admit-limit_example =
    admit-limit "rl:global" 2 100000000 burst [] refl
      (
        omega arith,
        ((omega arith, refl), ((omega arith, refl), tt)),
        (omega arith, ((omega arith, refl), tt), (omega arith, tt, tt)),
      )
      (omega arith, (omega arith, (omega arith, tt)))

-- The third request finds the window full.
admit-admit_spec_example : admit "rl:global" 2 burst [] [] ≡ admit_spec 2 burst []
admit-admit_spec_example = admit-admit_spec "rl:global" 2 burst [] refl (
  omega arith,
  ((omega arith, refl), ((omega arith, refl), tt)),
  (omega arith, ((omega arith, refl), tt), (omega arith, tt, tt)),
)

abbrev limits : RateSettings
limits = record {
  is_testing = false;
  global_rate_limit_rpm = 100;
  ip_rate_limit_rpm = 10;
  global_rate_limit_tpm = 1000;
}

abbrev idle : Slots
idle = record { counters = []; running = [] }

abbrev two_each : String → ℕ
two_each c = 2

idle-Exact : Exact two_each idle
idle-Exact c = (refl, omega arith)

-- One request of a client comes and goes.
one_request :
    Reach two_each idle
      (record { counters = release_client_slot "a" (("a", 1) ∷ []); running = [] })
unfolding acquire_client_slot
one_request = next (next here (enter "a" refl)) (leave "a" [] [] refl)

Reach-Exact_example :
    Exact two_each (record { counters = release_client_slot "a" (("a", 1) ∷ []); running = [] })
Reach-Exact_example = Reach-Exact one_request idle-Exact
