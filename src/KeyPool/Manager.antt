-- ===== src/KeyPool/Manager.antt =====
-- class KeyPoolManager of key_pool.py, as far as it keeps the pools in memory.
use llm_sentinel.Prelude.{
  String, List, Option, none, some, ◌≡◌, ◌==◌, string_eq, Dict, lookup, insert, lookup-insert,
  arith, map, if◌then◌else◌,
}
use llm_sentinel.KeyPool.Pool.{ApiKeyPool, new_pool}

abbrev pub Pools : Type 0
Pools = Dict String ApiKeyPool

abbrev or_new : String → Option ApiKeyPool → ApiKeyPool
or_new provider none = new_pool provider
or_new provider (some p) = p

-- The pool that `get_pool` finds or creates.
unfoldable pub get_pool : String → Pools → ApiKeyPool
get_pool provider pools = or_new provider (lookup provider pools)

-- The pools after a method of that pool, which is the object in the dict.
unfoldable pub set_pool : String → ApiKeyPool → Pools → Pools
set_pool provider p pools = insert provider p pools

-- The property `providers`.
unfoldable provider_names : Pools → List String
provider_names pools = map (λ e. e.0) pools

-- What is done to the pool of a provider is seen there, and the pools of others stay as they were.
get_pool-set_pool :
    (provider other : String) (p : ApiKeyPool) (pools : Pools)
    → get_pool other (set_pool provider p pools)
      ≡ (if provider == other then p else get_pool other pools)
unfolding get_pool set_pool
get_pool-set_pool provider other p pools = ground (arith, lookup-insert provider other p pools)
