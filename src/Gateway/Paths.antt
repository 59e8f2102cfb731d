-- ===== src/Gateway/Paths.antt =====
-- The ways that a chat request takes through `_handle_chat` of main.py.
use llm_sentinel.Prelude.{
  ℕ, ◌≡◌, ◌⊎◌, refl, sym, subst, String, Bool, true, false, not, ◌&&◌, List, Option, none, some,
  Bool-cases, Option-cases, inl, inr,
}
use llm_sentinel.Prelude.Handler.{Result, ok, raises, Handler, pure, ensure, continue, ◌>>=◌, ◌>>◌}
use llm_sentinel.Store.Ops.{Store}
use llm_sentinel.RateLimit.Window.{Stamp}
use llm_sentinel.RateLimit.Checks.{check_ip_rate, check_global_rate, check_client_rate}
use llm_sentinel.Cache.Responses.{Cache, get_cached_response}
use llm_sentinel.Proxy.Tokens.{Message}
use llm_sentinel.Guardrails.Request.{passed_on, or_default}
use llm_sentinel.Clients.Quota.{get_quota_usage, is_exhausted}
use llm_sentinel.Gateway.State.{Completion, World, Config, ChatRequest, Answer, cached, on_limits}
use llm_sentinel.Gateway.Chat.{
  stamp_of, client_of, check_client, check_limits, prepare, look_up, verdict_of, sanitized_of,
  truncated, run_request, handle_chat, is_cacheable, cache_key_of,
}

-- A handler that changes nothing but the windows of the limits.
abbrev LimitsOnly {ℓ} : {A : Type ℓ} → Handler World A → Type 0
LimitsOnly m = (w : World) → (x : Store Stamp) × ((m w).1 ≡ record w { limits = x })

ensure-world :
    (b : Bool) (status : ℕ) (detail : String) (w : World) → (ensure b status detail w).1 ≡ w
ensure-world true status detail w = refl
ensure-world false status detail w = refl

-- What follows a check that may refuse.
after-ensure :
    {A : Type 0} (b : Bool) (status : ℕ) (detail : String) (m : Handler World A)
    → LimitsOnly m
    → LimitsOnly (ensure b status detail >> m)
after-ensure true status detail m h w = h w
after-ensure false status detail m h w = (w.limits, refl)

check_client-LimitsOnly :
    (config : Config) (now : ℕ) (request : ChatRequest) (id : String)
    → LimitsOnly (check_client config now request id)
unfolding check_client
check_client-LimitsOnly config now request id w =
    let (a, x) = check_client_rate config.rates id 60 (stamp_of now request) w.limits in
    let quota : Handler World (Unit {0}) = λ v.
      ensure (not (is_exhausted (get_quota_usage id (config.date now) v.clients v.usage))) 429
        "Daily token quota exceeded" v in
    after-ensure a.0 429 "Client rate limit exceeded" quota
      (λ v. (
        v.limits,
        ensure-world (not (is_exhausted (get_quota_usage id (config.date now) v.clients v.usage)))
            429 "Daily token quota exceeded" v,
      ))
      (record w { limits = x })

of_client-LimitsOnly :
    (config : Config) (now : ℕ) (request : ChatRequest) (o : Option String)
    → LimitsOnly (elim o as (λ _. Handler World (Unit {0})) [
      | none ↦ pure tt
      | some id ↦ check_client config now request id
    ])
of_client-LimitsOnly config now request none w = (w.limits, refl)
of_client-LimitsOnly config now request (some id) w =
    check_client-LimitsOnly config now request id w

check_limits-LimitsOnly :
    (config : Config) (now : ℕ) (request : ChatRequest)
    → LimitsOnly (check_limits config now request)
unfolding check_limits
check_limits-LimitsOnly config now request w =
    let (a, x) = check_ip_rate config.rates request.ip (stamp_of now request) w.limits in
    let last : Handler World (Unit {0}) = elim (client_of request) [
      | none ↦ pure tt
      | some id ↦ check_client config now request id
    ] in
    let rest : Handler World (Unit {0}) =
      on_limits (check_global_rate config.rates (stamp_of now request)) >>= λ b.
      ensure b.0 429 "Global rate limit exceeded" >> last in
    after-ensure a.0 429 "IP rate limit exceeded" rest
      (λ v.
        let (b, y) = check_global_rate config.rates (stamp_of now request) v.limits in
        after-ensure b.0 429 "Global rate limit exceeded" last
          (of_client-LimitsOnly config now request (client_of request)) (record v { limits = y }))
      (record w { limits = x })

-- The messages that a request goes on with where the policies allow it.
abbrev pub checked_messages : Config → ChatRequest → World → List Message
checked_messages config request w =
    truncated config (passed_on (verdict_of config request w) (sanitized_of config request))

-- What a request comes to: a refusal or an answer of the cache, where the windows and the cache are
-- all that has changed, or the run of a request that the policies allow.
pub data Outcome (config : Config) (openai_format : Bool) (now : ℕ) (request : ChatRequest)
    (w : World) : Result Answer × World → Type 0 where
  refused :
      (status : ℕ) (detail : String) (x : Store Stamp)
      → Outcome config openai_format now request w (raises status detail, record w { limits = x })
  hit :
      (c : Completion) (x : Store Stamp) (y : Cache)
      → (verdict_of config request w).allowed ≡ true
      → Outcome config openai_format now request w
          (ok (cached c), record w { limits = x; cache = y })
  ran :
      (x : Store Stamp) (y : Cache)
      → (verdict_of config request w).allowed ≡ true
      → Outcome config openai_format now request w (
          run_request config openai_format now request
            (checked_messages config request w)
            (record w { limits = x; cache = y }))

Result-cases :
    {A : Type 0} (r : Result A)
    → ((a : A) × (r ≡ ok a)) ⊎ ((status : ℕ) × (detail : String) × (r ≡ raises status detail))
Result-cases (ok a) = inl (a, refl)
Result-cases (raises status detail) = inr (status, detail, refl)

-- Where the messages are ready.
look_up-Outcome :
    (config : Config) (openai_format : Bool) (now : ℕ) (request : ChatRequest) (w : World)
    (x : Store Stamp)
    → (verdict_of config request w).allowed ≡ true
    → let messages = checked_messages config request w in
      Outcome config openai_format now request w (
        continue
          (λ found. elim found as (λ _. Handler World Answer) [
            | some c ↦ pure (cached c)
            | none ↦ run_request config openai_format now request messages
          ])
          (look_up config now request messages (record w { limits = x })))
unfolding look_up
look_up-Outcome config openai_format now request w x allowed =
    let messages = checked_messages config request w in
    elim (Bool-cases (is_cacheable config request && not request.no_cache)) [
      | inl asked ↦
          let (found, cache) =
            get_cached_response config.load config.cache now (cache_key_of config request messages)
              w.cache in
          elim (Option-cases found) [
            | inl missing ↦ rw (asked, missing) (ran x cache allowed)
            | inr (c, there) ↦ rw (asked, there) (hit c x cache allowed)
          ]
      | inr not_asked ↦ rw not_asked (ran x w.cache allowed)
    ]

-- What follows the limits.
abbrev after_limits : Config → Bool → ℕ → ChatRequest → Unit {0} → Handler World Answer
after_limits config openai_format now request u = prepare config request >>= λ messages.
    look_up config now request messages >>= λ found. elim found as (λ _. Handler World Answer) [
      | some c ↦ pure (cached c)
      | none ↦ run_request config openai_format now request messages
    ]

after_limits-Outcome :
    (config : Config) (openai_format : Bool) (now : ℕ) (request : ChatRequest) (w : World)
    (x : Store Stamp)
    → Outcome config openai_format now request w
        (after_limits config openai_format now request tt (record w { limits = x }))
unfolding prepare
after_limits-Outcome config openai_format now request w x =
    elim (Bool-cases (verdict_of config request w).allowed) [
      | inl allowed ↦ rw allowed (look_up-Outcome config openai_format now request w x allowed)
      | inr rejected ↦ rw rejected (
          refused 403
            (or_default "Blocked by content policy" (verdict_of config request w).reject_reason) x)
    ]

-- Every chat request takes one of the paths.
pub handle_chat-Outcome :
    (config : Config) (openai_format : Bool) (now : ℕ) (request : ChatRequest) (w : World)
    → Outcome config openai_format now request w (handle_chat config openai_format now request w)
unfolding handle_chat
handle_chat-Outcome config openai_format now request w =
    let (x, limits) = check_limits-LimitsOnly config now request w in
    let Goal : Result (Unit {0}) → World → Type 0 = λ r v.
      Outcome config openai_format now request w
        (continue (after_limits config openai_format now request) (r, v)) in
    subst (Goal (check_limits config now request w).0) (sym limits)
      (elim (Result-cases (check_limits config now request w).0) [
        | inr (status, detail, over) ↦
            subst (λ r. Goal r (record w { limits = x })) (sym over) (refused status detail x)
        | inl (u, within) ↦
            subst (λ r. Goal r (record w { limits = x })) (sym within)
              (after_limits-Outcome config openai_format now request w x)
      ])
