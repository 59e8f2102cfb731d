-- ===== src/Proxy/Retry.antt =====
-- `_chat_with_retry` of llm_proxy.py. What a provider's adapter answers, the clock and the random
-- draws are the environment, each a function of the number of calls or attempts made before.
use llm_sentinel.Prelude.{
  ℕ, zero, suc, ◌+◌, String, Bool, true, false, ◌&&◌, List, [], ◌∷◌, ◌++◌, Option, none, some, leb,
  ltb, nat_beq, if◌then◌else◌,
}
use llm_sentinel.Breaker.Manager.{Manager}
use llm_sentinel.Breaker.Manager
use llm_sentinel.KeyPool.Pool.{get_next_key, mark_success, mark_error, mark_rate_limited}
use llm_sentinel.KeyPool.Manager.{Pools, get_pool, set_pool}
use llm_sentinel.Proxy.Providers.{providers_to_try}

-- What `adapter.chat` does: it returns a response, or raises with a `status_code` (0 if it has none)
-- and a `retry_after`.
pub data Reply : Type 0 where
  success : String → Reply
  failure : ℕ → Option ℕ → Reply

pub record Env : Type 0 where
  pub now : ℕ → ℕ
  pub draw : ℕ → ℕ
  pub reply : ℕ → Reply

-- The state that a request changes, with the numbers of attempts and of adapter calls so far, and the
-- providers that have been called.
pub record World : Type 0 where
  pub pools : Pools
  pub breakers : Manager
  pub attempts : ℕ
  pub calls : ℕ
  pub called : List String

pub record Settings : Type 0 where
  pub max_retries : ℕ
  pub strategy : String
  pub chain : List String

-- How one provider, or the whole request, ends. `rejected` is the ProviderError of a client error,
-- `exhausted` that no attempt is left.
pub data Outcome : Type 0 where
  returned : String → Outcome
  rejected : ℕ → Outcome
  exhausted : Outcome

-- `400 <= status_code < 500 and status_code != 429`
abbrev pub is_client_error : ℕ → Bool
is_client_error status = leb 400 status && ltb status 500

-- `int(retry_after) if retry_after else 60`
abbrev back_off_for : Option ℕ → ℕ
back_off_for none = 60
back_off_for (some zero) = 60
back_off_for (some (suc n)) = suc n

-- What is recorded of a reply for the key of an index.
unfoldable pub mark_reply : ℕ → String → ℕ → Reply → World → World
mark_reply now prov key_idx (success r) w = record w {
  pools = set_pool prov (mark_success now key_idx (get_pool prov w.pools)) w.pools;
  breakers = Manager.record_success prov key_idx w.breakers;
}
mark_reply now prov key_idx (failure status retry_after) w =
    if nat_beq status 429
    then record w {
      pools =
          set_pool prov
            (mark_rate_limited now key_idx (back_off_for retry_after) (get_pool prov w.pools))
            w.pools;
    }
    else record w {
      pools = set_pool prov (mark_error key_idx 10 (get_pool prov w.pools)) w.pools;
      breakers = Manager.record_failure now prov key_idx w.breakers;
    }

-- One round of the loop over attempts: `none` where the loop goes on, and whether it breaks.
pub data Round : Type 0 where
  goes_on : Round
  ends : Outcome → Round

unfoldable pub judge : Reply → Round
judge (success r) = ends (returned r)
judge (failure status retry_after) =
    if nat_beq status 429
    then goes_on
    else if is_client_error status
    then ends (rejected status)
    else goes_on

-- The call of the adapter, where the breaker lets it through.
unfoldable pub call_if : Env → ℕ → String → ℕ → Bool → World → Round × World
call_if env now prov key_idx false w = (goes_on, w)
call_if env now prov key_idx true w =
    let reply = env.reply w.calls in
    (
      judge reply,
      mark_reply now prov key_idx reply
          (record w { calls = w.calls + 1; called = w.called ++ (prov ∷ []) }),
    )

-- The body of the loop from the key on. The providers of the pools are taken to be registered: of
-- another one that has keys `get_provider` raises ValueError, which is not modelled.
unfoldable pub with_key : Env → ℕ → String → Option (String × ℕ) → World → Round × World
with_key env now prov none w = (ends exhausted, w)
with_key env now prov (some (api_key, key_idx)) w =
    let (breakers, free) = Manager.available now prov key_idx w.breakers in
    call_if env now prov key_idx free (record w { breakers = breakers })

unfoldable pub attempt : Env → Settings → String → World → Round × World
attempt env settings prov w =
    let now : ℕ = env.now w.attempts in
    let (key, p) =
      get_next_key now settings.strategy (env.draw w.attempts) (get_pool prov w.pools) in
    with_key env now prov key
      (record w { pools = set_pool prov p w.pools; attempts = w.attempts + 1 })

-- `for attempt in range(settings.MAX_RETRIES)`; a provider with no healthy key is left at once.
unfoldable pub try_provider : ℕ → Env → Settings → String → World → Outcome × World
try_provider zero env settings prov w = (exhausted, w)
try_provider (suc n) env settings prov w =
    let (round, w') = attempt env settings prov w in
    let again = try_provider n env settings prov w' in
    elim round [ goes_on ↦ again | ends o ↦ (o, w') ]

unfoldable pub try_all : Env → Settings → List String → World → Outcome × World
try_all env settings [] w = (exhausted, w)
try_all env settings (prov ∷ provs) w =
    let (outcome, w') = try_provider settings.max_retries env settings prov w in
    let others = try_all env settings provs w' in
    elim outcome [
      | exhausted ↦ others
      | returned r ↦ (returned r, w')
      | rejected s ↦ (rejected s, w')
    ]

-- The response, or the status of the ProviderError that is raised: 503 where all are exhausted.
pub data Answer : Type 0 where
  response : String → Answer
  provider_error : ℕ → Answer

unfoldable pub answer_of : Outcome → Answer
answer_of (returned r) = response r
answer_of (rejected s) = provider_error s
answer_of exhausted = provider_error 503

unfoldable pub chat_with_retry : Env → Settings → String → World → Answer × World
chat_with_retry env settings provider w =
    let (outcome, w') = try_all env settings (providers_to_try provider settings.chain) w in
    (answer_of outcome, w')
