-- ===== src/Tests/Requests.antt =====
-- The theorems on llm_proxy.py at small requests.
use llm_sentinel.Prelude.{
  ℕ, zero, suc, ◌+◌, ◌≤◌, ◌<◌, ◌≡◌, ◌⊎◌, String, true, List, [], ◌∷◌, ◌++◌, none, some, arith,
  string_eq,
}
use llm_sentinel.KeyPool.Pool.{KeyEntry, ApiKeyPool}
use llm_sentinel.Proxy.Tokens.{
  plain_text, Message, Encoder, message_tokens, estimate_messages_tokens, estimate_tokens,
  truncate_messages,
}
use llm_sentinel.Proxy.Truncate.{system_of, others_of, truncate_messages_newest}
use llm_sentinel.Proxy.Resolve.{ModelAlias}
use llm_sentinel.Proxy.Retry.{Reply, success, failure, Env, World, Settings, chat_with_retry}
use llm_sentinel.Proxy.Bounds.{AnswerExplains, chat_with_retry-Explains}
use llm_sentinel.Proxy.Called.{count, chat_with_retry-calls}

abbrev message : String → String → Message
message role text = record { role = some role; content = plain_text text }

abbrev talk : List Message
talk = message "system" "abcd" ∷ message "user" "abcdefgh" ∷ message "user" "abcd" ∷ []

abbrev no_encoder : Encoder
no_encoder = none

-- Five tokens of the system message and five of the newest fit under a limit of twelve.
truncate_messages_newest_example :
    (dropped : List Message) × (kept : List Message) × (others_of talk ≡ dropped ++ kept)
    × ((truncate_messages no_encoder 12 talk).0 ≡ system_of talk ++ kept)
    × (estimate_messages_tokens no_encoder (system_of talk ++ kept) ≤ 12)
    × ((dropped ≡ [])
        ⊎ ((older : List Message) × (m : Message) × (dropped ≡ older ++ (m ∷ []))
            × (12
                < estimate_messages_tokens no_encoder (system_of talk ++ kept)
                  + message_tokens no_encoder m.content)))
unfolding estimate_messages_tokens message_tokens estimate_tokens
truncate_messages_newest_example =
    truncate_messages_newest no_encoder 12 talk (omega arith) (omega arith)

abbrev chain : List String
chain = "anthropic" ∷ "openai" ∷ "anthropic" ∷ []

abbrev aliases : List ModelAlias
aliases = record { alias = "fast"; provider = "groq"; model = "llama3"; is_active = true } ∷ []

-- The first call is rate limited, the second fails, and the third succeeds.
abbrev answers : ℕ → Reply
answers zero = failure 429 (some 5)
answers (suc zero) = failure 500 none
answers (suc (suc n)) = success "hello"

abbrev env : Env
env = record { now = λ n. n; draw = λ n. 0; reply = answers }

abbrev settings : Settings
settings = record { max_retries = 3; strategy = "round_robin"; chain = chain }

abbrev entry : String → KeyEntry
entry text = record {
  key_plaintext = text;
  db_id = none;
  usage_count = 0;
  error_count = 0;
  is_healthy = true;
  last_used_at = none;
}

abbrev openai_pool : ApiKeyPool
openai_pool = record {
  provider = "openai";
  keys = entry "a" ∷ entry "b" ∷ [];
  counter = 0;
  backoff = [];
}

abbrev world : World
world = record {
  pools = ("openai", openai_pool) ∷ [];
  breakers = record { failure_threshold = 5; recovery_timeout = 60; breakers = [] };
  attempts = 0;
  calls = 0;
  called = [];
}

chat_with_retry-Explains_example :
    let (answer, w') = chat_with_retry env settings "openai" world in
    AnswerExplains env w'.calls answer
chat_with_retry-Explains_example = chat_with_retry-Explains env settings "openai" world

chat_with_retry-calls_example :
    count "openai" (chat_with_retry env settings "openai" world).1.called ≤ 3
chat_with_retry-calls_example = chat_with_retry-calls env settings "openai" "openai" world
