-- ===== src/Tests/Chats.antt =====
-- The theorems on `_handle_chat` of main.py at a small request.
use llm_sentinel.Prelude.{refl, true, false, List, [], ◌∷◌, none, some}
use llm_sentinel.Proxy.Tokens.{plain_text}
use llm_sentinel.Proxy.Retry.{success}
use llm_sentinel.Cache.Responses.{bad_json}
use llm_sentinel.Guardrails.Policy.{
  no_config, Policy, load_policies, order_by_priority, insert_by_priority,
}
use llm_sentinel.Guardrails.Request.{
  evaluate_request, result_of, evaluate_all, evaluate_policy, restrict_model,
}
use llm_sentinel.Proxy.Resolve.{resolve_model}
use llm_sentinel.Gateway.State.{World, Config, ChatRequest}
use llm_sentinel.Gateway.Chat.{handle_chat}
use llm_sentinel.Gateway.Body.{respond}
use llm_sentinel.Gateway.Asked.{AsksChecked, respond-calls}
use llm_sentinel.Gateway.Guarded.{Untouched, Ended, handle_chat-Untouched, handle_chat-Ended}
use llm_sentinel.Tests.Policies.{plain_tools, no_threat, policy}

abbrev config : Config
config = record {
  rates = record {
    is_testing = false;
    global_rate_limit_rpm = 100;
    ip_rate_limit_rpm = 10;
    global_rate_limit_tpm = 1000;
  };
  cache = record { enabled = true; max_tokens = 1000; ttl_seconds = 60 };
  truncation_enabled = false;
  max_context_tokens = 1000;
  retry = record { max_retries = 1; strategy = "round_robin"; chain = "openai" ∷ [] };
  patterns = [];
  aliases = none;
  subn = λ flags pattern replacement text. none;
  tools = plain_tools;
  classifier = no_threat;
  encoder = none;
  digest = λ messages model temperature. model;
  load = λ text. bad_json;
  dump = λ c. some c.raw;
  dump_session = λ s. s.status;
  sends = λ socket. true;
  providers = record { now = λ n. 60000000; draw = λ n. 0; reply = λ n. success "Hi" };
  streams = record {
    now = λ n. 60000000;
    draw = λ n. 0;
    reply = λ n. record { chunks = "Hi" ∷ []; completes = true };
  };
  content_of = λ chunk. chunk;
  read = λ raw. record { raw = raw; input_tokens = 2; output_tokens = 1; content = raw };
  date = λ now. "2026-01-01";
}

abbrev request : ChatRequest
request = record {
  messages = record { role = some "user"; content = plain_text "Hello" } ∷ [];
  model = some "gpt-4o";
  provider = some "openai";
  system = none;
  temperature = none;
  stream = false;
  no_cache = false;
  ip = "10.0.0.1";
  client_id = none;
  request_id = "r1";
  session_id = "s1";
  task = 1;
}

abbrev gateway : List Policy → World
gateway policies = record {
  limits = [];
  clients = [];
  usage = [];
  policies = policies;
  cache = record { hit_count = 0; miss_count = 0; store = [] };
  sessions = record { sessions = []; ws_clients = []; store = []; removals = [] };
  active = [];
  held = 0;
  proxy = record {
    pools = [];
    breakers = record { failure_threshold = 5; recovery_timeout = 60; breakers = [] };
    attempts = 0;
    calls = 0;
    called = [];
  };
  calls = [];
  stats = record {
    total_requests = 0;
    total_input_tokens = 0;
    total_output_tokens = 0;
    errors = 0;
  };
  logged = [];
}

-- A streamed request, whose `system` is not sent.
abbrev in_stream : ChatRequest
in_stream = record request { stream = true; system = some "Be brief" }

respond-calls_example :
    AsksChecked config false in_stream
      (gateway [])
      (respond config false 60000000 61000000 in_stream (gateway [])).1
respond-calls_example = respond-calls config false 60000000 61000000 in_stream (gateway [])

-- Another model than the one that is asked for is allowed.
abbrev strict : List Policy
strict = policy "model_restrict" 1 (record no_config { allowed_models = "gpt-4" ∷ [] }) ∷ []

handle_chat-Untouched_example :
    Untouched (gateway strict) (handle_chat config true 60000000 request (gateway strict))
unfolding evaluate_request result_of evaluate_all evaluate_policy restrict_model load_policies
    order_by_priority insert_by_priority resolve_model
handle_chat-Untouched_example =
    handle_chat-Untouched config true 60000000 request (gateway strict) refl

handle_chat-Ended_example :
    Ended 60000000 request (gateway []) (handle_chat config true 60000000 request (gateway []))
handle_chat-Ended_example = handle_chat-Ended config true 60000000 request (gateway [])
