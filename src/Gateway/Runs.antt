-- ===== src/Gateway/Runs.antt =====
-- The runs of the requests that get to a provider (`_handle_chat` of main.py).
use llm_sentinel.Prelude.{
  ℕ, ◌+◌, ◌-◌, ◌≡◌, ◌⊎◌, refl, String, Bool, true, false, ◌&&◌, List, [], ◌∷◌, ◌++◌, Option, none,
  some, if◌then◌else◌, Bool-cases, inl, inr,
}
use llm_sentinel.Prelude.Handler.{Result, ok, raises}
use llm_sentinel.RateLimit.Slots.{register_active_request, unregister_active_request}
use llm_sentinel.Cache.Responses.{Cache, set_cached_response}
use llm_sentinel.Session.Manager as Session
use llm_sentinel.Proxy.Tokens.{Message}
use llm_sentinel.Proxy.Retry as Retry
use llm_sentinel.Auth.State.{Client}
use llm_sentinel.Clients.Quota.{TokenUsage}
use llm_sentinel.Gateway.State.{
  Completion, World, Config, ChatRequest, Answer, completed, streaming,
}
use llm_sentinel.Gateway.Chat.{
  client_of, is_cacheable, call_of, count_request, cache_key_of, store_answer, record_of,
  record_usage, finish, call_proxy, serve, start_stream, run_request, open_session,
}

-- The session manager while the request runs.
abbrev pub running_sessions : Config → ℕ → ChatRequest → Session.Manager → Session.Manager
running_sessions config now request m =
    Session.update config.dump_session config.sends now request.session_id (some "running") none
      none (Session.register config.dump_session config.sends now request.session_id m)

-- The world while the request runs, with its slot.
abbrev pub running : Config → ℕ → ChatRequest → World → World
running config now request w = record w {
  sessions = running_sessions config now request w.sessions;
  active = register_active_request now request.request_id w.active;
  held = w.held + 1;
}

-- What is left of a run, in the fields that each of its ends decides.
pub data Run (config : Config) (openai_format : Bool) (now : ℕ) (request : ChatRequest)
    (messages : List Message) (w : World) : Result Answer × World → Type 0 where
  streamed :
      request.stream ≡ true
      → Run config openai_format now request messages w (
        ok (streaming (call_of config true request messages)),
        record w {
          sessions =
              Session.update config.dump_session config.sends now request.session_id
                (some "streaming")
                none
                none
                (running_sessions config now request w.sessions);
          active = register_active_request now request.request_id w.active;
          held = w.held + 1 - 1;
        },
      )
  answered :
      request.stream ≡ false
      → (c : Completion) (proxy : Retry.World) (cache : Cache) (usage : List TokenUsage)
        (clients : List Client)
      → Run config openai_format now request messages w (
        ok (completed c),
        record w {
          clients = clients;
          usage = usage;
          cache = cache;
          sessions =
              Session.close config.sends now request.session_id "done"
                (running_sessions config now request w.sessions);
          active = register_active_request now request.request_id w.active;
          held = w.held + 1 - 1;
          proxy = proxy;
          calls = w.calls ++ (call_of config openai_format request messages ∷ []);
          stats = count_request c w.stats;
          logged = w.logged ++ (request.request_id ∷ []);
        },
      )
  failed :
      request.stream ≡ false
      → (status : ℕ) (proxy : Retry.World)
      → Run config openai_format now request messages w (
        raises status "ProviderError",
        record w {
          sessions =
              Session.close config.sends now request.session_id "error"
                (running_sessions config now request w.sessions);
          active =
              unregister_active_request request.request_id
                (register_active_request now request.request_id w.active);
          held = w.held + 1 - 1;
          proxy = proxy;
          calls = w.calls ++ (call_of config openai_format request messages ∷ []);
          stats = record w.stats { errors = w.stats.errors + 1 };
        },
      )

store_answer-cache :
    (config : Config) (openai_format : Bool) (now : ℕ) (request : ChatRequest)
    (messages : List Message) (c : Completion) (w : World)
    → (y : Cache) × (store_answer config openai_format now request messages c w
        ≡ (ok tt, record w { cache = y }))
unfolding store_answer
store_answer-cache config openai_format now request messages c w =
    elim (Bool-cases (is_cacheable config request && openai_format)) [
      | inl stores ↦ (
        set_cached_response config.dump config.cache now (cache_key_of config request messages) c
            (c.input_tokens + c.output_tokens) w.cache,
        rw stores refl,
      )
      | inr passes ↦ (w.cache, rw passes refl)
    ]

record_of-rows :
    (config : Config) (now : ℕ) (request : ChatRequest) (c : Completion) (o : Option String)
    (w : World)
    → (usage : List TokenUsage) × (clients : List Client) × (record_of config now request c o w
        ≡ (ok tt, record w { usage = usage; clients = clients }))
record_of-rows config now request c none w = (w.usage, w.clients, refl)
record_of-rows config now request c (some id) w = (_, _, refl)

Answer-cases :
    (a : Retry.Answer)
    → ((r : String) × (a ≡ Retry.response r)) ⊎ ((status : ℕ) × (a ≡ Retry.provider_error status))
Answer-cases (Retry.response r) = inl (r, refl)
Answer-cases (Retry.provider_error status) = inr (status, refl)

-- The end of a successful call.
finish-world :
    (config : Config) (openai_format : Bool) (now : ℕ) (request : ChatRequest)
    (messages : List Message) (c : Completion) (w : World)
    → (cache : Cache) × (usage : List TokenUsage) × (clients : List Client) × (finish config
          openai_format now request messages c w
        ≡ (
          ok (completed c),
          record w {
            clients = clients;
            usage = usage;
            cache = cache;
            sessions = Session.close config.sends now request.session_id "done" w.sessions;
            stats = count_request c w.stats;
            logged = w.logged ++ (request.request_id ∷ []);
          },
        ))
unfolding finish record_usage
finish-world config openai_format now request messages c w =
    let (cache, stored) = store_answer-cache config openai_format now request messages c w in
    let (usage, clients, recorded) =
      record_of-rows config now request c (client_of request) (record w { cache = cache }) in
    (cache, usage, clients, rw (stored, recorded) refl)

serve-Run :
    (config : Config) (openai_format : Bool) (now : ℕ) (request : ChatRequest)
    (messages : List Message) (w : World)
    → request.stream ≡ false
    → Run config openai_format now request messages w
        (serve config openai_format now request messages (running config now request w))
unfolding serve call_proxy
serve-Run config openai_format now request messages w plain =
    let call = call_of config openai_format request messages in
    let (answer, proxy) =
      Retry.chat_with_retry config.providers config.retry call.provider w.proxy in
    elim (Answer-cases answer) [
      | inl (r, answered_with) ↦
          let w1 = record (running config now request w) {
            proxy = proxy;
            calls = w.calls ++ (call ∷ []);
          } in
          let (cache, usage, clients, done) =
            finish-world config openai_format now request messages (config.read r) w1 in
          rw (answered_with, done) (answered plain (config.read r) proxy cache usage clients)
      | inr (status, refused_with) ↦ rw refused_with (failed plain status proxy)
    ]

either-Run :
    (streams : Bool) (config : Config) (openai_format : Bool) (now : ℕ) (request : ChatRequest)
    (messages : List Message) (w : World)
    → request.stream ≡ streams
    → Run config openai_format now request messages w (
        (if streams
            then start_stream config now request messages
            else serve config openai_format now request messages)
          (running config now request w))
unfolding start_stream
either-Run true config openai_format now request messages w h = streamed h
either-Run false config openai_format now request messages w h =
    serve-Run config openai_format now request messages w h

-- Every run has one of the ends.
pub run_request-Run :
    (config : Config) (openai_format : Bool) (now : ℕ) (request : ChatRequest)
    (messages : List Message) (w : World)
    → Run config openai_format now request messages w
        (run_request config openai_format now request messages w)
unfolding run_request open_session
run_request-Run config openai_format now request messages w =
    either-Run request.stream config openai_format now request messages w refl
