-- ===== src/Breaker/Manager.antt =====
-- class CircuitBreakerManager of circuit_breaker.py: a breaker for each "provider:key_index".
use Prim.Native.String.{◌++◌ as append}
use llm_sentinel.Prelude.{
  ℕ, ◌≡◌, ap, Bool, false, String, List, [], ◌∷◌, Option, none, some, arith, Dict, lookup, insert,
  map, ◌==◌, string_eq, if◌then◌else◌, lookup-insert_ne, lookup-insert_self,
}
use llm_sentinel.Prelude.Text.{str}
use llm_sentinel.Breaker.State.{CircuitBreaker, CbState, new_breaker, read_state, is_available}
use llm_sentinel.Breaker.State

pub record Manager : Type 0 where
  pub failure_threshold : ℕ
  pub recovery_timeout : ℕ
  pub breakers : Dict String CircuitBreaker

-- `_key`
unfoldable pub breaker_key : String → ℕ → String
breaker_key provider key_index = append provider (append ":" (str key_index))

abbrev or_new : String → ℕ → ℕ → ℕ → Option CircuitBreaker → CircuitBreaker
or_new provider key_index threshold timeout none = new_breaker provider key_index threshold timeout
or_new provider key_index threshold timeout (some b) = b

-- The breaker that `get_breaker` finds or creates.
unfoldable pub find_breaker : String → ℕ → Manager → CircuitBreaker
find_breaker provider key_index m =
    or_new provider key_index m.failure_threshold m.recovery_timeout
      (lookup (breaker_key provider key_index) m.breakers)

-- A method of the breaker that `get_breaker` returns, which is the object in the dict.
unfoldable pub on_breaker : String → ℕ → (CircuitBreaker → CircuitBreaker) → Manager → Manager
unfolding find_breaker
on_breaker provider key_index f m = record m {
  breakers =
      insert (breaker_key provider key_index) (f (find_breaker provider key_index m)) m.breakers;
}

unfoldable get_breaker : String → ℕ → Manager → Manager × CircuitBreaker
unfolding on_breaker
get_breaker provider key_index m =
    (on_breaker provider key_index (λ b. b) m, find_breaker provider key_index m)

unfoldable pub available : ℕ → String → ℕ → Manager → Manager × Bool
unfolding on_breaker
available now provider key_index m = (
  on_breaker provider key_index (read_state now) m,
  (is_available now (find_breaker provider key_index m)).1,
)

unfoldable pub record_success : String → ℕ → Manager → Manager
unfolding on_breaker
record_success provider key_index m = on_breaker provider key_index State.record_success m

unfoldable pub record_failure : ℕ → String → ℕ → Manager → Manager
unfolding on_breaker
record_failure now provider key_index m = on_breaker provider key_index (State.record_failure now) m

-- The loop of `reset` over all the breakers of a provider.
reset_each : String → Dict String CircuitBreaker → Dict String CircuitBreaker
reset_each provider [] = []
reset_each provider ((k, b) ∷ d) =
    (k, if b.provider == provider then State.reset b else b) ∷ reset_each provider d

unfoldable pub reset : String → Option ℕ → Manager → Manager
unfolding on_breaker reset_each
reset provider (some key_index) m = on_breaker provider key_index State.reset m
reset provider none m = record m { breakers = reset_each provider m.breakers }

-- `get_all_states` reads every `state`, so it turns breakers half-open on the way.
read_each : ℕ → Dict String CircuitBreaker → Dict String CircuitBreaker
read_each now [] = []
read_each now ((k, b) ∷ d) = (k, read_state now b) ∷ read_each now d

unfoldable pub get_all_states : ℕ → Manager → Manager × List (String × CbState)
unfolding read_each
get_all_states now m =
    let d = read_each now m.breakers in (record m { breakers = d }, map (λ e. (e.0, e.1.state)) d)

-- A call on one breaker leaves the breakers of all other keys as they were.
on_breaker-lookup_ne :
    (provider : String) (key_index : ℕ) (f : CircuitBreaker → CircuitBreaker) (m : Manager)
    (k : String)
    → (breaker_key provider key_index == k) ≡ false
    → lookup k (on_breaker provider key_index f m).breakers ≡ lookup k m.breakers
unfolding on_breaker
on_breaker-lookup_ne provider key_index f m k h =
    lookup-insert_ne (breaker_key provider key_index) k _ m.breakers h

-- A call on one breaker is seen by the next call for the same provider and key.
pub find_breaker-on_breaker :
    (provider : String) (key_index : ℕ) (f : CircuitBreaker → CircuitBreaker) (m : Manager)
    → find_breaker provider key_index (on_breaker provider key_index f m)
      ≡ f (find_breaker provider key_index m)
unfolding on_breaker
find_breaker-on_breaker provider key_index f m =
    ap (or_new provider key_index m.failure_threshold m.recovery_timeout) (
      lookup-insert_self (breaker_key provider key_index) (f (find_breaker provider key_index m))
        m.breakers)

reset_each-lookup :
    (provider : String) (d : Dict String CircuitBreaker) (k : String) (b : CircuitBreaker)
    → lookup k d ≡ some b
    → lookup k (reset_each provider d) ≡ some (if b.provider == provider then State.reset b else b)
unfolding reset_each
reset_each-lookup provider [] k b h = cc
reset_each-lookup provider ((j, c) ∷ d) k b h = ground (arith, reset_each-lookup provider d k b)

-- A reset of a whole provider resets each breaker of it, and leaves those of other providers alone.
reset_provider :
    (provider : String) (m : Manager) (k : String) (b : CircuitBreaker)
    → lookup k m.breakers ≡ some b
    → lookup k (reset provider none m).breakers
      ≡ some (if b.provider == provider then State.reset b else b)
unfolding reset
reset_provider provider m k b h = reset_each-lookup provider m.breakers k b h
