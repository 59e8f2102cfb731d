-- ===== src/Cache/Responses.antt =====
-- caching.py. The text of a response is made and read by json and pydantic: `dump` and `parse` are
-- arguments. The key of a request is computed by json and hashlib, and is an argument too.
use Prim.Native.String.{◌++◌ as append}
use llm_sentinel.Prelude.{
  ℕ, ◌+◌, String, Bool, List, [], ◌∷◌, Option, none, some, ltb, if◌then◌else◌, nat_eq, length,
}
use llm_sentinel.Store.Entry.{Value, text, members, sorted_set}
use llm_sentinel.Store.Ops.{Store, set_with_ttl, get_value, delete_key, get_all_keys}

-- What becomes of a stored text: `json.loads` fails, `model_validate` fails, or neither.
pub data Parsed (R : Type 0) : Type 0 where
  bad_json bad_model : Parsed R
  good : R → Parsed R

-- CACHE_ENABLED, CACHE_MAX_TOKENS and CACHE_TTL_SECONDS.
pub record CacheSettings : Type 0 where
  pub enabled : Bool
  pub max_tokens : ℕ
  pub ttl_seconds : ℕ

-- The counters of the module, and the store.
pub record Cache : Type 0 where
  pub hit_count : ℕ
  pub miss_count : ℕ
  pub store : Store ℕ

-- `f"cache:{cache_key}"`
abbrev pub entry_key : String → String
entry_key cache_key = append "cache:" cache_key

-- A value that is no text makes `json.loads` fail.
abbrev parse_value : {R : Type 0} → (String → Parsed R) → Value ℕ → Parsed R
parse_value parse (text t) = parse t
parse_value parse (members _) = bad_json
parse_value parse (sorted_set _) = bad_json

-- A hit is counted once the text is read, before the model is validated.
unfoldable pub count_parsed : {R : Type 0} → Parsed R → Cache → Option R × Cache
count_parsed bad_json c = (none, record c { miss_count = c.miss_count + 1 })
count_parsed bad_model c =
    (none, record c { hit_count = c.hit_count + 1; miss_count = c.miss_count + 1 })
count_parsed (good r) c = (some r, record c { hit_count = c.hit_count + 1 })

unfoldable pub get_cached_response :
    {R : Type 0} → (String → Parsed R) → CacheSettings → ℕ → String → Cache → Option R × Cache
unfolding count_parsed
get_cached_response parse settings now cache_key c =
    let (raw, store) = get_value now (entry_key cache_key) c.store in
    let read : Cache = record c { store = store } in
    if settings.enabled
    then elim raw [
      | none ↦ (none, record read { miss_count = read.miss_count + 1 })
      | some value ↦ count_parsed (parse_value parse value) read
    ]
    else (none, c)

-- `dump` answers none where it raises: the failure is logged, and nothing is stored.
unfoldable pub set_cached_response :
    {R : Type 0} → (R → Option String) → CacheSettings → ℕ → String → R → ℕ → Cache → Cache
set_cached_response dump settings now cache_key response usage_tokens c =
    if settings.enabled
    then if ltb settings.max_tokens usage_tokens then c else elim (dump response) [
      | none ↦ c
      | some raw ↦ record c {
        store = set_with_ttl now (entry_key cache_key) raw settings.ttl_seconds c.store;
      }
    ]
    else c

-- The loop of `invalidate_cache`: the keys it deletes, and their count.
unfoldable delete_all : List String → ℕ → Store ℕ → ℕ × Store ℕ
delete_all [] count s = (count, s)
delete_all (key ∷ keys) count s =
    let (deleted, s') = delete_key key s in
    delete_all keys (if deleted then count + 1 else count) s'

-- `is_match` stands for `fnmatch` at `f"cache:{pattern}"`.
unfoldable invalidate_cache : ℕ → (String → Bool) → Cache → ℕ × Cache
unfolding delete_all
invalidate_cache now is_match c =
    let (keys, s) = get_all_keys now is_match c.store in
    let (count, s') = delete_all keys 0 s in (count, record c { store = s' })

-- The counts of `get_cache_stats`; the hit rate is a rounded percentage of them.
record CacheStats : Type 0 where
  pub hits : ℕ
  pub misses : ℕ
  pub entries_count : ℕ

unfoldable get_cache_stats : ℕ → (String → Bool) → Cache → CacheStats × Cache
get_cache_stats now is_cached c =
    let (keys, s) = get_all_keys now is_cached c.store in
    (
      record { hits = c.hit_count; misses = c.miss_count; entries_count = length keys },
      record c { store = s },
    )

unfoldable reset_cache_counters : Cache → Cache
reset_cache_counters c = record c { hit_count = 0; miss_count = 0 }
