-- ===== src/Proxy/Embeddings.antt =====
-- create_embeddings and _get_timeout of llm_proxy.py.
use llm_sentinel.Prelude.{ℕ, ◌+◌, String, none, some, ◌==◌, string_eq, if◌then◌else◌}
use llm_sentinel.KeyPool.Pool.{get_next_key, mark_success, mark_error}
use llm_sentinel.KeyPool.Manager.{get_pool, set_pool}
use llm_sentinel.Proxy.Retry.{
  Reply, success, failure, Env, World, Settings, Answer, response, provider_error,
}

-- The timeouts of config.py.
record Timeouts : Type 0 where
  pub anthropic : ℕ
  pub openai : ℕ
  pub gemini : ℕ
  pub ollama : ℕ

unfoldable get_timeout : Timeouts → String → ℕ
get_timeout t provider =
    if provider == "anthropic"
    then t.anthropic
    else if provider == "openai"
    then t.openai
    else if provider == "azure_openai"
    then t.openai
    else if provider == "gemini"
    then t.gemini
    else if provider == "ollama"
    then t.ollama
    else 120

-- After the call of the adapter. A failure is a ProviderError of status 502.
unfoldable embedded : ℕ → String → ℕ → Reply → World → Answer × World
embedded now provider key_idx (success r) w = (
  response r,
  record w {
    pools = set_pool provider (mark_success now key_idx (get_pool provider w.pools)) w.pools;
  },
)
embedded now provider key_idx (failure status retry_after) w = (
  provider_error 502,
  record w {
    pools = set_pool provider (mark_error key_idx 10 (get_pool provider w.pools)) w.pools;
  },
)

-- One key, one call: no circuit breaker, no retry and no fallback.
unfoldable create_embeddings : Env → Settings → String → World → Answer × World
unfolding embedded
create_embeddings env settings provider w =
    let now : ℕ = env.now w.attempts in
    let (key, p) =
      get_next_key now settings.strategy (env.draw w.attempts) (get_pool provider w.pools) in
    let w' : World = record w { pools = set_pool provider p w.pools; attempts = w.attempts + 1 } in
    elim key [
      | none ↦ (provider_error 502, w')
      | some (api_key, key_idx) ↦
          embedded now provider key_idx (env.reply w'.calls) (record w' { calls = w'.calls + 1 })
    ]
