-- ===== src/Tests/Records.antt =====
-- The theorems on session_manager.py and caching.py at small tables.
use llm_sentinel.Prelude.{
  ℕ, ◌+◌, ◌≡◌, ◌⊎◌, refl, String, true, [], ◌∷◌, Option, some, arith, string_eq, nat_eq, length,
}
use llm_sentinel.Session.Manager.{LiveSession, Manager, cleanup_stale}
use llm_sentinel.Session.Laws.{Spared, Removed, cleanup_stale-keeps}
use llm_sentinel.Cache.Responses.{
  Parsed, good, CacheSettings, Cache, get_cached_response, set_cached_response,
}
use llm_sentinel.Cache.Lookup.{get_cached_response-set}

abbrev session : String → String → ℕ → LiveSession
session id status started = record {
  session_id = id;
  status = status;
  started_at = started;
  output_tokens_so_far = 0;
  elapsed_ms = 0;
}

abbrev two_sessions : Manager
two_sessions = record {
  sessions = ("a", session "a" "running" 0) ∷ ("b", session "b" "done" 0) ∷ [];
  ws_clients = [];
  store = [];
  removals = [];
}

cleanup_stale-keeps_example :
    let (dropped, m) = cleanup_stale 10000000 5 two_sessions in
    (Spared 10000000 5 "b" (session "b" "done" 0) two_sessions m
      ⊎ Removed 10000000 5 "b" (session "b" "done" 0) m)
    × (2 ≡ dropped + length m.sessions)
cleanup_stale-keeps_example =
    cleanup_stale-keeps 10000000 5 "b" (session "b" "done" 0) two_sessions refl (omega arith)

-- A response is its own text.
abbrev dump : String → Option String
dump response = some response

abbrev parse : String → Parsed String
parse raw = good raw

abbrev caching : CacheSettings
caching = record { enabled = true; max_tokens = 100; ttl_seconds = 60 }

abbrev empty_cache : Cache
empty_cache = record { hit_count = 0; miss_count = 0; store = [] }

get_cached_response-set_example :
    (get_cached_response parse caching 9000000 "k"
      (set_cached_response dump caching 5000000 "k" "answer" 40 empty_cache)).0
    ≡ some "answer"
get_cached_response-set_example =
    get_cached_response-set dump parse caching 5000000 9000000 40 "k" "answer" "answer" empty_cache
      refl (omega arith) (omega arith) refl refl
