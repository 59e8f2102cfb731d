-- ===== src/Gateway/Chat.antt =====
-- `_handle_chat` of main.py. A handler reads the clock once; metrics are left out.
use llm_sentinel.Prelude.{
  ℕ, ◌+◌, ◌-◌, String, Bool, true, false, not, ◌&&◌, List, [], ◌∷◌, ◌++◌, Option, none, some, ◌==◌,
  string_eq, if◌then◌else◌,
}
use llm_sentinel.Prelude.Handler.{ok, Handler, pure, raise, gets, ensure, ◌>>=◌, ◌>>◌}
use llm_sentinel.RateLimit.Window.{Stamp}
use llm_sentinel.RateLimit.Checks.{check_ip_rate, check_global_rate, check_client_rate}
use llm_sentinel.RateLimit.Slots.{register_active_request, unregister_active_request}
use llm_sentinel.Cache.Responses.{get_cached_response, set_cached_response}
use llm_sentinel.Filter.Patterns.{sanitize_messages}
use llm_sentinel.Session.Manager.{register, update, close}
use llm_sentinel.Proxy.Tokens.{Message, truncate_messages}
use llm_sentinel.Proxy.Resolve.{Resolved, resolve_model}
use llm_sentinel.Proxy.Retry as Retry
use llm_sentinel.Guardrails.Policy.{load_policies}
use llm_sentinel.Guardrails.Request.{
  Evaluation, evaluate_request, passed_on, system_message, or_default,
}
use llm_sentinel.Guardrails.Response.{evaluate_response}
use llm_sentinel.Clients.Quota.{get_quota_usage, is_exhausted, record_token_usage, touch_client}
use llm_sentinel.Gateway.State.{
  Completion, Call, Stats, World, Config, ChatRequest, Answer, cached, completed, streaming,
  on_limits, on_cache, on_sessions, change,
}

abbrev pub stamp_of : ℕ → ChatRequest → Stamp
stamp_of now request = record { time = now; mark = request.task }

-- `if user.client_id:`
abbrev pub client_of : ChatRequest → Option String
client_of request = elim request.client_id [
  | none ↦ none
  | some id ↦ if id == "" then none else some id
]

-- The rate and the quota of a client; its own limit per minute is not read.
unfoldable pub check_client : Config → ℕ → ChatRequest → String → Handler World (Unit {0})
check_client config now request client_id = do
  (allowed, retry) ← on_limits (check_client_rate config.rates client_id 60 (stamp_of now request))
  ensure allowed 429 "Client rate limit exceeded"
  quota ← gets (λ w. get_quota_usage client_id (config.date now) w.clients w.usage)
  ensure (not (is_exhausted quota)) 429 "Daily token quota exceeded"

unfoldable pub check_limits : Config → ℕ → ChatRequest → Handler World (Unit {0})
check_limits config now request = do
  (ip_allowed, ip_retry) ← on_limits (check_ip_rate config.rates request.ip (stamp_of now request))
  ensure ip_allowed 429 "IP rate limit exceeded"
  (allowed, retry) ← on_limits (check_global_rate config.rates (stamp_of now request))
  ensure allowed 429 "Global rate limit exceeded"
  elim (client_of request) [ none ↦ pure tt | some id ↦ check_client config now request id ]

abbrev resolved_of : Config → ChatRequest → Resolved
resolved_of config request =
    resolve_model config.tools.lower config.retry.chain config.aliases request.provider
      request.model

abbrev pub sanitized_of : Config → ChatRequest → List Message
sanitized_of config request = (sanitize_messages config.subn config.patterns request.messages).0

-- The verdict of the content policies on the masked messages.
abbrev pub verdict_of : Config → ChatRequest → World → Evaluation
verdict_of config request w =
    evaluate_request config.tools config.classifier (load_policies request.client_id w.policies)
      (resolved_of config request).model (sanitized_of config request)

abbrev pub truncated : Config → List Message → List Message
truncated config messages =
    if config.truncation_enabled
    then (truncate_messages config.encoder config.max_context_tokens messages).0
    else messages

-- The messages that the request goes on with, unless a policy rejects it.
unfoldable pub prepare : Config → ChatRequest → Handler World (List Message)
prepare config request = do
  verdict ← gets (verdict_of config request)
  ensure verdict.allowed 403 (or_default "Blocked by content policy" verdict.reject_reason)
  pure (truncated config (passed_on verdict (sanitized_of config request)))

abbrev pub cache_key_of : Config → ChatRequest → List Message → String
cache_key_of config request messages =
    config.digest messages (resolved_of config request).model request.temperature

abbrev pub is_cacheable : Config → ChatRequest → Bool
is_cacheable config request = config.cache.enabled && not request.stream

-- The answer that is stored for the request, where the cache may be asked.
unfoldable pub look_up : Config → ℕ → ChatRequest → List Message → Handler World (Option Completion)
look_up config now request messages =
    if is_cacheable config request && not request.no_cache
    then on_cache
        (get_cached_response config.load config.cache now (cache_key_of config request messages))
    else pure none

-- What is sent: LLMProxy.chat puts the `system` of a native request in front.
abbrev sent : Bool → ChatRequest → List Message → List Message
sent true request messages = messages
sent false request messages = elim request.system [
  | none ↦ messages
  | some s ↦ if s == "" then messages else system_message s ∷ messages
]

-- A native request resolves its model once more.
abbrev pub call_of : Config → Bool → ChatRequest → List Message → Call
call_of config openai_format request messages =
    let first = resolved_of config request in
    let again =
      resolve_model config.tools.lower config.retry.chain config.aliases (some first.provider)
        (some first.model) in
    record {
      messages = sent openai_format request messages;
      provider = if openai_format then first.provider else again.provider;
      model = if openai_format then first.model else again.model;
    }

unfoldable pub open_session : Config → ℕ → ChatRequest → Handler World (Unit {0})
open_session config now request = do
  on_sessions (register config.dump_session config.sends now request.session_id)
  change (λ w. record w { active = register_active_request now request.request_id w.active })

abbrev set_status : Config → ℕ → ChatRequest → String → Handler World (Unit {0})
set_status config now request status =
    on_sessions
      (update config.dump_session config.sends now request.session_id (some status) none none)

abbrev close_session : Config → ℕ → ChatRequest → String → Handler World (Unit {0})
close_session config now request status =
    on_sessions (close config.sends now request.session_id status)

abbrev unregister : ChatRequest → Handler World (Unit {0})
unregister request =
    change (λ w. record w { active = unregister_active_request request.request_id w.active })

-- The call, and its record.
unfoldable pub call_proxy : Config → Call → Handler World Retry.Answer
call_proxy config call w =
    let (answer, proxy) =
      Retry.chat_with_retry config.providers config.retry call.provider w.proxy in
    (ok answer, record w { proxy = proxy; calls = w.calls ++ (call ∷ []) })

abbrev pub count_request : Completion → Stats → Stats
count_request c s = record s {
  total_requests = s.total_requests + 1;
  total_input_tokens = s.total_input_tokens + c.input_tokens;
  total_output_tokens = s.total_output_tokens + c.output_tokens;
}

-- The cache is written only where it has been given a key, and only in the OpenAI format.
unfoldable pub store_answer :
    Config → Bool → ℕ → ChatRequest → List Message → Completion → Handler World (Unit {0})
store_answer config openai_format now request messages c =
    if is_cacheable config request && openai_format
    then change (λ w. record w {
      cache =
          set_cached_response config.dump config.cache now (cache_key_of config request messages) c
            (c.input_tokens + c.output_tokens) w.cache;
    })
    else pure tt

abbrev pub record_of :
    Config → ℕ → ChatRequest → Completion → Option String → Handler World (Unit {0})
record_of config now request c none = pure tt
record_of config now request c (some id) = change (λ w. record w {
  usage =
      record_token_usage (config.date now) id (resolved_of config request).provider
        (resolved_of config request).model c.input_tokens c.output_tokens w.usage;
  clients = touch_client now id w.clients;
})

unfoldable pub record_usage : Config → ℕ → ChatRequest → Completion → Handler World (Unit {0})
record_usage config now request c = record_of config now request c (client_of request)

-- What follows a successful call: what `evaluate_response` makes of the text is not used.
unfoldable pub finish :
    Config → Bool → ℕ → ChatRequest → List Message → Completion → Handler World Answer
finish config openai_format now request messages c = do
  filtered ←
      gets
        (λ w. evaluate_response config.tools (load_policies request.client_id w.policies) c.content)
  store_answer config openai_format now request messages c
  record_usage config now request c
  change (λ w. record w {
    logged = w.logged ++ (request.request_id ∷ []);
    stats = count_request c w.stats;
  })
  close_session config now request "done"
  pure (completed c)

-- The body of `async with acquire_global_slot()` for an answer that is not streamed. A ProviderError
-- leaves it and is caught around it.
unfoldable pub serve : Config → Bool → ℕ → ChatRequest → List Message → Handler World Answer
serve config openai_format now request messages = do
  answer ← call_proxy config (call_of config openai_format request messages)
  elim answer [
    | Retry.response r ↦ do
      result ← finish config openai_format now request messages (config.read r)
      change (λ w. record w { held = w.held - 1 })
      pure result
    | Retry.provider_error status ↦ do
      change (λ w. record w { held = w.held - 1 })
      close_session config now request "error"
      unregister request
      change (λ w. record w { stats = record w.stats { errors = w.stats.errors + 1 } })
      raise status "ProviderError"
  ]

-- A stream is handed back before it starts, and the slot with it: sse_generator sends
-- the messages as they are, in both formats.
unfoldable pub start_stream : Config → ℕ → ChatRequest → List Message → Handler World Answer
start_stream config now request messages = do
  set_status config now request "streaming"
  change (λ w. record w { held = w.held - 1 })
  pure (streaming (call_of config true request messages))

unfoldable pub run_request : Config → Bool → ℕ → ChatRequest → List Message → Handler World Answer
run_request config openai_format now request messages = do
  open_session config now request
  change (λ w. record w { held = w.held + 1 })
  set_status config now request "running"
  if request.stream
      then start_stream config now request messages
      else serve config openai_format now request messages

unfoldable pub handle_chat : Config → Bool → ℕ → ChatRequest → Handler World Answer
handle_chat config openai_format now request = do
  check_limits config now request
  messages ← prepare config request
  found ← look_up config now request messages
  elim found [
    | some c ↦ pure (cached c)
    | none ↦ run_request config openai_format now request messages
  ]
