-- ===== src/Lib.antt =====
-- LLM Sentinel: models and theorems for the core of the gateway.
--
-- The gateway takes chat requests, guards them, and passes them to language-model providers. Its parts:
--   * security.py refuses banned addresses and replayed signed requests, and judges passwords
--     (Security: BruteForce, Signing, Signature, Password; theorems in Bans, Replay);
--   * rate_limiter.py limits requests and tokens per minute and concurrent requests (RateLimit: Window,
--     Checks, Slots; theorems in Limit, Refined, Checks, Slots, by way of Scored and
--     Admitted), over the store;
--   * redis_client.py has InMemoryStore, the store that stands in for Redis (Store: Entry, Ops; theorems
--     in Laws, Others, Sorted);
--   * data_filter.py masks secrets in messages (Filter: Patterns; theorems in Masked);
--   * caching.py keeps answers in the store (Cache: Responses; theorems in Lookup);
--   * llm_proxy.py estimates tokens, truncates, resolves the model, and tries keys and providers in turn
--     (Proxy: Tokens, Resolve, Providers, Retry, Stream, Embeddings; theorems in Truncate, Resolve,
--     Providers, Bounds, Called);
--   * key_pool.py rotates the keys of a provider and keeps them encrypted (KeyPool: Pool, Manager,
--     Vault; theorems in Usable, Rotation, Health, Rotated);
--   * circuit_breaker.py opens a breaker for a key that fails (Breaker: State, Manager, Sync; theorems
--     in Outage, Manager, Sync);
--   * session_manager.py keeps live sessions and tells their subscribers (Session: Manager; theorems in
--     Laws);
--   * guardrails.py evaluates content policies on requests and responses (Guardrails: Tables, Policy,
--     Detect, Request, Response, Admin; theorems in Models, Prompts, Filtered);
--   * auth.py logs users in, issues, refreshes and revokes tokens, and checks roles, with
--     password_utils.py (Auth: State, Tokens, Login, Access, Endpoints; theorems in LoggedIn, Lockout,
--     Issued, Refreshed, Ended, by way of Keys, Failures and Revoked);
--   * clients.py and cost_tracker.py keep clients with their keys, their usage and quotas, and the rates
--     of models (Clients: Crud, Quota, Rates; theorems in Keys, Spent); bootstrap.py makes the first
--     admin (Auth: Bootstrap);
--   * providers/ convert requests and answers between the format of the gateway and those of the
--     services (Adapters: Base, Anthropic, OpenAi, Plain; theorems in Streamed, Prompted, by way of
--     Collected and Yielded);
--   * model_alias.py, filter_db.py and config_export.py keep what an administrator sets up, and import it
--     (Catalog: Aliases, Patterns, Entries, Portable; theorems in Uniqueness, BuiltIn, Kept, Reimported, by
--     way of Rows, Imported and Sections);
--   * main.py composes all of these in `_handle_chat` (Gateway: State, Chat, Body; theorems in Asked and
--     Guarded, by way of Paths and Runs).
-- A function of the model has the name of the code's, with a leading underscore dropped; a method
-- takes the object last and returns it, with its result where it has one. The handlers of auth.py and
-- main.py are do blocks over Prelude.Handler, where what has been changed stays so when an exception is
-- raised. The proxy calls the models of the key pools and the breakers; the limiter, the cache and
-- the sessions call that of the store. Tests has the theorems at concrete inputs, and Prelude the lists, dictionaries and tests that all share.
--
-- Choices of the model. Times are whole microseconds on a clock that a call reads once, and is given;
-- settings in seconds are multiplied out by `seconds`. A lock is held for a whole method, so a method is
-- one step; the requests of RateLimit.Slots interleave step by step. A dict is an association list in
-- insertion order. Every loop of the code is bounded by a list or by MAX_RETRIES, so recursion is
-- structural, and no fuel is needed but for the digits of a number, where the number itself is enough.
--
-- Arguments of the model are the code outside the repository and what differs from run to run: the
-- tiktoken encoder, the adapters' answers, random draws, str.lower and the Unicode digits, the regular
-- expressions of `re`, fnmatch patterns, the texts that json and pydantic write and read, the cipher
-- with the law that it decrypts what it encrypts, PyJWT with the law that a token decodes to what was
-- encoded until it expires, SHA-256, bcrypt, and whether a socket takes a message.
--
-- Not modelled: logging, audit files and metrics, alerts, backups, the database layer (rows are lists, a
-- query takes the first row that fits, and the lists that a query orders are left out), HTTP routing
-- and the other routes of main.py, LDAP and the guard model (their answers are arguments), the
-- arithmetic of costs on floats, the clients of the services behind the adapters, and the calls of a
-- real Redis server; the waiting at the global asyncio semaphore, of which the slots are counted, and
-- the conversion of answers to the native chat format.
pub mod Prelude
pub mod Breaker
pub mod KeyPool
pub mod Store
pub mod RateLimit
pub mod Proxy
pub mod Security
pub mod Session
pub mod Cache
pub mod Filter
pub mod Adapters
pub mod Auth
pub mod Catalog
pub mod Clients
pub mod Gateway
pub mod Guardrails
pub mod Tests
