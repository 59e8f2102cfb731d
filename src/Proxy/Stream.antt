-- ===== src/Proxy/Stream.antt =====
-- `_stream_with_retry` of llm_proxy.py: one attempt for each provider.
use llm_sentinel.Prelude.{
  ℕ, ◌+◌, ◌≡◌, ap, ◌∙◌, String, Bool, true, false, List, [], ◌∷◌, ◌++◌, Option, none, some, arith,
}
use llm_sentinel.Breaker.Manager
use llm_sentinel.KeyPool.Pool.{get_next_key, mark_success, mark_error}
use llm_sentinel.KeyPool.Manager.{get_pool, set_pool}
use llm_sentinel.Proxy.Providers.{providers_to_try}
use llm_sentinel.Proxy.Retry.{World, Settings}

-- What iterating over `adapter.stream_chat` does: it yields chunks, and then ends or raises.
pub record StreamReply : Type 0 where
  pub chunks : List String
  pub completes : Bool

pub record StreamEnv : Type 0 where
  pub now : ℕ → ℕ
  pub draw : ℕ → ℕ
  pub reply : ℕ → StreamReply

-- The chunks that were passed on, and whether the stream completed.
pub record Streamed : Type 0 where
  pub passed : List String
  pub completed : Bool
  pub world : World

-- The marks after a stream that completed or raised.
unfoldable mark_stream : ℕ → String → ℕ → Bool → World → World
mark_stream now prov key_idx true w = record w {
  pools = set_pool prov (mark_success now key_idx (get_pool prov w.pools)) w.pools;
  breakers = Manager.record_success prov key_idx w.breakers;
}
mark_stream now prov key_idx false w = record w {
  pools = set_pool prov (mark_error key_idx 10 (get_pool prov w.pools)) w.pools;
  breakers = Manager.record_failure now prov key_idx w.breakers;
}

unfoldable stream_if : StreamEnv → ℕ → String → ℕ → Bool → World → Streamed
stream_if env now prov key_idx false w = record { passed = []; completed = false; world = w }
stream_if env now prov key_idx true w =
    let reply = env.reply w.calls in
    record {
      passed = reply.chunks;
      completed = reply.completes;
      world =
          mark_stream now prov key_idx reply.completes
            (record w { calls = w.calls + 1; called = w.called ++ (prov ∷ []) });
    }

unfoldable stream_key : StreamEnv → ℕ → String → Option (String × ℕ) → World → Streamed
stream_key env now prov none w = record { passed = []; completed = false; world = w }
stream_key env now prov (some (api_key, key_idx)) w =
    let (breakers, free) = Manager.available now prov key_idx w.breakers in
    stream_if env now prov key_idx free (record w { breakers = breakers })

-- The body of the loop for one provider.
unfoldable stream_once : StreamEnv → Settings → String → World → Streamed
stream_once env settings prov w =
    let now : ℕ = env.now w.attempts in
    let (key, p) =
      get_next_key now settings.strategy (env.draw w.attempts) (get_pool prov w.pools) in
    stream_key env now prov key
      (record w { pools = set_pool prov p w.pools; attempts = w.attempts + 1 })

-- The loop: what a provider has yielded stays passed on when the next one is tried. A stream that
-- does not complete ends in the ProviderError 503.
unfoldable stream_all : StreamEnv → Settings → List String → World → Streamed
stream_all env settings [] w = record { passed = []; completed = false; world = w }
stream_all env settings (prov ∷ provs) w =
    let first = stream_once env settings prov w in
    let later = stream_all env settings provs first.world in
    elim first.completed [
      | true ↦ first
      | false ↦ record later { passed = first.passed ++ later.passed }
    ]

pub stream_with_retry : StreamEnv → Settings → String → World → Streamed
stream_with_retry env settings provider w =
    stream_all env settings (providers_to_try provider settings.chain) w

-- A failure in the middle of a stream is not the end of it: the chunks of the provider that failed
-- stay in front of those of the providers tried after it.
stream_all-failed :
    (env : StreamEnv) (settings : Settings) (prov : String) (provs : List String) (w : World)
    → (stream_once env settings prov w).completed ≡ false
    → (stream_all env settings (prov ∷ provs) w).passed
      ≡ (stream_once env settings prov w).passed
        ++ (stream_all env settings provs (stream_once env settings prov w).world).passed
unfolding stream_all
stream_all-failed env settings prov provs w h = ground arith

-- Where the provider asked for completes, its chunks are passed on and no other provider is called.
stream_with_retry-first :
    (env : StreamEnv) (settings : Settings) (provider : String) (rest : List String) (w : World)
    → providers_to_try provider settings.chain ≡ provider ∷ rest
    → (stream_once env settings provider w).completed ≡ true
    → stream_with_retry env settings provider w ≡ stream_once env settings provider w
unfolding stream_with_retry stream_all
stream_with_retry-first env settings provider rest w e h =
    ap (λ (l : List String). stream_all env settings l w) e ∙ ground arith
