-- ===== src/Cache/Lookup.antt =====
-- What a lookup in the cache of caching.py finds, and how it is counted.
use llm_sentinel.Prelude.{
  ℕ, ◌+◌, ◌≤◌, ◌<◌, ◌≡◌, String, true, Option, none, some, ltb, if◌then◌else◌, arith, nat_eq,
}
use llm_sentinel.Breaker.State.{seconds}
use llm_sentinel.Store.Entry.{text}
use llm_sentinel.Store.Ops.{get_value}
use llm_sentinel.Store.Laws.{get_value-set_with_ttl}
use llm_sentinel.Cache.Responses.{
  Parsed, bad_model, good, CacheSettings, Cache, entry_key, count_parsed, get_cached_response,
  set_cached_response,
}

-- An enabled lookup in terms of what the store has at its key.
lookup_lem :
    {R : Type 0} (parse : String → Parsed R) (settings : CacheSettings) (now : ℕ) (key raw : String)
    (c : Cache)
    → settings.enabled ≡ true
    → (get_value now (entry_key key) c.store).0 ≡ some (text raw)
    → get_cached_response parse settings now key c
      ≡ count_parsed (parse raw) (record c { store = (get_value now (entry_key key) c.store).1 })
unfolding get_cached_response
lookup_lem parse settings now key raw c en h = ground arith

-- With caching enabled and a positive lifetime, a response that is stored within the token limit,
-- and whose text reads back as itself, is found until its lifetime has passed, and then no more.
pub get_cached_response-set :
    {R : Type 0} (dump : R → Option String) (parse : String → Parsed R) (settings : CacheSettings)
    (now later usage : ℕ) (key raw : String) (response : R) (c : Cache)
    → settings.enabled ≡ true
    → usage ≤ settings.max_tokens
    → 0 < settings.ttl_seconds
    → dump response ≡ some raw
    → parse raw ≡ good response
    → (get_cached_response parse settings later key
        (set_cached_response dump settings now key response usage c)).0
      ≡ (if ltb (now + seconds settings.ttl_seconds) later then none else some response)
unfolding get_cached_response set_cached_response count_parsed
get_cached_response-set dump parse settings now later usage key raw response c en u p d r =
    ground
      (arith, get_value-set_with_ttl now later settings.ttl_seconds (entry_key key) raw c.store)

-- An enabled lookup that finds a text which is json but no response answers nothing, and counts both
-- a hit and a miss.
get_cached_response-bad_model :
    {R : Type 0} (parse : String → Parsed R) (settings : CacheSettings) (now : ℕ) (key raw : String)
    (c : Cache)
    → settings.enabled ≡ true
    → (get_value now (entry_key key) c.store).0 ≡ some (text raw)
    → parse raw ≡ bad_model
    → let (answer, c') = get_cached_response parse settings now key c in
      (answer ≡ none) × (c'.hit_count ≡ c.hit_count + 1) × (c'.miss_count ≡ c.miss_count + 1)
unfolding count_parsed
get_cached_response-bad_model parse settings now key raw c en h b =
    ground (arith, lookup_lem parse settings now key raw c en h)
