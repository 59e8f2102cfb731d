-- ===== src/Gateway/State.antt =====
-- What `_handle_chat` of main.py works on: the parts of the program with their states, and a request.
use llm_sentinel.Prelude.{ℕ, String, Bool, List, Option, Dict}
use llm_sentinel.Prelude.Handler.{Handler, ok}
use llm_sentinel.Store.Ops.{Store}
use llm_sentinel.RateLimit.Window.{Stamp}
use llm_sentinel.RateLimit.Checks.{RateSettings}
use llm_sentinel.Cache.Responses.{Parsed, CacheSettings, Cache}
use llm_sentinel.Filter.Patterns.{Subn, Pattern}
use llm_sentinel.Session.Manager as Session
use llm_sentinel.Proxy.Tokens.{Encoder, Message}
use llm_sentinel.Proxy.Resolve.{ModelAlias}
use llm_sentinel.Proxy.Retry as Retry
use llm_sentinel.Proxy.Stream.{StreamEnv}
use llm_sentinel.Guardrails.Policy.{Policy}
use llm_sentinel.Guardrails.Detect.{TextTools}
use llm_sentinel.Guardrails.Request.{Classifier}
use llm_sentinel.Auth.State.{Client}
use llm_sentinel.Clients.Quota.{TokenUsage}

-- What a provider's answer says: the counts of tokens and the text.
pub record Completion : Type 0 where
  pub raw : String
  pub input_tokens : ℕ
  pub output_tokens : ℕ
  pub content : String

-- One call of LLMProxy: what it is given to send, and for whom.
pub record Call : Type 0 where
  pub messages : List Message
  pub provider : String
  pub model : String

pub record Stats : Type 0 where
  pub total_requests : ℕ
  pub total_input_tokens : ℕ
  pub total_output_tokens : ℕ
  pub errors : ℕ

-- `held` counts the slots of the global semaphore that are taken, `calls` lists the calls of the
-- proxy, and `logged` the requests that `log_request` has written.
pub record World : Type 0 where
  pub limits : Store Stamp
  pub clients : List Client
  pub usage : List TokenUsage
  pub policies : List Policy
  pub cache : Cache
  pub sessions : Session.Manager
  pub active : Dict String ℕ
  pub held : ℕ
  pub proxy : Retry.World
  pub calls : List Call
  pub stats : Stats
  pub logged : List String

-- The settings, and what the code takes from libraries: `re`, json and sha256, tiktoken, pydantic,
-- the clock, the sockets of the dashboard, the replies of the providers, plain and streamed, and the
-- content of a chunk's first choice, empty where it has none.
pub record Config : Type 0 where
  pub rates : RateSettings
  pub cache : CacheSettings
  pub truncation_enabled : Bool
  pub max_context_tokens : ℕ
  pub retry : Retry.Settings
  pub patterns : List Pattern
  pub aliases : Option (List ModelAlias)
  pub subn : Subn
  pub tools : TextTools
  pub classifier : Classifier
  pub encoder : Encoder
  pub digest : List Message → String → Option String → String
  pub load : String → Parsed Completion
  pub dump : Completion → Option String
  pub dump_session : Session.LiveSession → String
  pub sends : ℕ → Bool
  pub providers : Retry.Env
  pub streams : StreamEnv
  pub content_of : String → String
  pub read : String → Completion
  pub date : ℕ → String

-- The body and the headers of a request as far as they are read, its user, the ids that are made for
-- it, and the task that serves it.
pub record ChatRequest : Type 0 where
  pub messages : List Message
  pub model : Option String
  pub provider : Option String
  pub system : Option String
  pub temperature : Option String
  pub stream : Bool
  pub no_cache : Bool
  pub ip : String
  pub client_id : Option String
  pub request_id : String
  pub session_id : String
  pub task : ℕ

-- The three ways in which a request is answered.
pub data Answer : Type 0 where
  cached completed : Completion → Answer
  streaming : Call → Answer

abbrev pub on_limits : (Store Stamp → (Bool × ℕ) × Store Stamp) → Handler World (Bool × ℕ)
on_limits f w = let (a, s) = f w.limits in (ok a, record w { limits = s })

abbrev pub on_cache {ℓ} : {A : Type ℓ} → (Cache → A × Cache) → Handler World A
on_cache f w = let (a, c) = f w.cache in (ok a, record w { cache = c })

abbrev pub on_sessions : (Session.Manager → Session.Manager) → Handler World (Unit {0})
on_sessions f w = (ok tt, record w { sessions = f w.sessions })

abbrev pub change : (World → World) → Handler World (Unit {0})
change f w = (ok tt, f w)
