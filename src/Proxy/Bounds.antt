-- ===== src/Proxy/Bounds.antt =====
-- What the answer of `_chat_with_retry` of llm_proxy.py rests on.
use llm_sentinel.Prelude.{
  ℕ, zero, suc, ◌+◌, ◌*◌, ◌≤◌, ◌<◌, ◌≡◌, ◌≢◌, ◌⊎◌, inl, inr, refl, sym, ◌∙◌, subst, String, Bool,
  true, false, List, [], ◌∷◌, ◌++◌, Option, none, some, arith, nat_beq, length, Bool-cases,
}
use llm_sentinel.KeyPool.Pool.{get_next_key}
use llm_sentinel.KeyPool.Manager.{get_pool, set_pool}
use llm_sentinel.Breaker.Manager
use llm_sentinel.Proxy.Providers.{providers_to_try}
use llm_sentinel.Proxy.Retry.{
  Reply, success, failure, Env, World, Settings, Outcome, returned, rejected, exhausted,
  is_client_error, Round, goes_on, ends, judge, mark_reply, call_if, with_key, attempt,
  try_provider, try_all, Answer, response, provider_error, answer_of, chat_with_retry,
}

-- The last call, number `n`, is the one that an outcome comes from.
abbrev Explains : Env → ℕ → Outcome → Type 0
Explains env calls (returned r) = (n : ℕ) × (calls ≡ suc n) × (env.reply n ≡ success r)
Explains env calls (rejected s) =
    (n : ℕ) × (retry_after : Option ℕ) × (calls ≡ suc n)
    × (env.reply n ≡ failure s retry_after)
    × (400 ≤ s)
    × (s < 500)
    × (s ≢ 429)
Explains env calls exhausted = Unit

abbrev ExplainsRound : Env → ℕ → Round → Type 0
ExplainsRound env calls goes_on = Unit
ExplainsRound env calls (ends o) = Explains env calls o

mark_reply-calls :
    (now : ℕ) (prov : String) (i : ℕ) (r : Reply) (w : World)
    → (mark_reply now prov i r w).calls ≡ w.calls
unfolding mark_reply
mark_reply-calls now prov i (success r) w = refl
mark_reply-calls now prov i (failure s a) w = ground arith

judge-Explains :
    (env : Env) (n : ℕ) (r : Reply) → env.reply n ≡ r → ExplainsRound env (suc n) (judge r)
unfolding judge
judge-Explains env n (success r) e = (n, refl, e)
judge-Explains env n (failure s a) e = elim (Bool-cases (nat_beq s 429)) [
  | inl t ↦ rw t tt
  | inr t ↦ elim (Bool-cases (is_client_error s)) [
    | inl c ↦ rw (t, c) (n, a, refl, e, ground arith, ground arith, ground arith)
    | inr c ↦ rw (t, c) tt
  ]
]

-- One attempt makes at most one call, and ends the loop only by what that call answers.
abbrev Attempts : Env → World → Round × World → Type 0
Attempts env w p = ExplainsRound env p.1.calls p.0 × (p.1.calls ≤ w.calls + 1)

call_if-Attempts :
    (env : Env) (now : ℕ) (prov : String) (i : ℕ) (free : Bool) (w : World)
    → Attempts env w (call_if env now prov i free w)
unfolding call_if
call_if-Attempts env now prov i false w = (tt, omega arith)
call_if-Attempts env now prov i true w =
    let w' = record w { calls = w.calls + 1; called = w.called ++ (prov ∷ []) } in
    let same : (mark_reply now prov i (env.reply w.calls) w').calls ≡ suc w.calls =
      mark_reply-calls now prov i (env.reply w.calls) w' ∙ omega arith in
    (
      subst (λ n. ExplainsRound env n (judge (env.reply w.calls))) (sym same)
          (judge-Explains env w.calls (env.reply w.calls) refl),
      omega arith,
    )

with_key-Attempts :
    (env : Env) (now : ℕ) (prov : String) (key : Option (String × ℕ)) (w : World)
    → Attempts env w (with_key env now prov key w)
unfolding with_key
with_key-Attempts env now prov none w = (tt, omega arith)
with_key-Attempts env now prov (some (key, i)) w =
    let polled = Manager.available now prov i w.breakers in
    call_if-Attempts env now prov i polled.1 (record w { breakers = polled.0 })

attempt-Attempts :
    (env : Env) (settings : Settings) (prov : String) (w : World)
    → Attempts env w (attempt env settings prov w)
unfolding attempt
attempt-Attempts env settings prov w =
    let now : ℕ = env.now w.attempts in
    let got = get_next_key now settings.strategy (env.draw w.attempts) (get_pool prov w.pools) in
    with_key-Attempts env now prov got.0
      (record w { pools = set_pool prov got.1 w.pools; attempts = w.attempts + 1 })

-- A loop of `n` rounds makes at most `n` calls, and its outcome is what the last call answers.
abbrev Within : Env → ℕ → World → Outcome × World → Type 0
Within env n w p = Explains env p.1.calls p.0 × (p.1.calls ≤ w.calls + n)

after_round :
    (env : Env) (n : ℕ) (w : World) (p : Round × World) (again : Outcome × World)
    → Attempts env w p
    → Within env n p.1 again
    → Within env (suc n) w (elim p.0 [ goes_on ↦ again | ends o ↦ (o, p.1) ])
after_round env n w (goes_on, w') again a h = (h.0, omega arith)
after_round env n w (ends o, w') again a h = (a.0, omega arith)

try_provider-Within :
    (n : ℕ) (env : Env) (settings : Settings) (prov : String) (w : World)
    → Within env n w (try_provider n env settings prov w)
unfolding try_provider
try_provider-Within zero env settings prov w = (tt, omega arith)
try_provider-Within (suc n) env settings prov w =
    let p = attempt env settings prov w in
    after_round env n w p (try_provider n env settings prov p.1)
      (attempt-Attempts env settings prov w) (try_provider-Within n env settings prov p.1)

after_provider :
    (env : Env) (n m : ℕ) (w : World) (p : Outcome × World) (others : Outcome × World)
    → Within env n w p
    → Within env m p.1 others
    → Within env (n + m) w (elim p.0 [
      | exhausted ↦ others
      | returned r ↦ (returned r, p.1)
      | rejected s ↦ (rejected s, p.1)
    ])
after_provider env n m w (returned r, w') others h k = (h.0, omega arith)
after_provider env n m w (rejected s, w') others h k = (h.0, omega arith)
after_provider env n m w (exhausted, w') others h k = (k.0, omega arith)

try_all-Within :
    (env : Env) (settings : Settings) (provs : List String) (w : World)
    → Within env (length provs * settings.max_retries) w (try_all env settings provs w)
unfolding try_all
try_all-Within env settings [] w = (tt, omega arith)
try_all-Within env settings (prov ∷ provs) w =
    let p = try_provider settings.max_retries env settings prov w in
    let others = try_all env settings provs p.1 in
    let (e, n) =
      after_provider env settings.max_retries (length provs * settings.max_retries) w p others
        (try_provider-Within settings.max_retries env settings prov w)
        (try_all-Within env settings provs p.1) in
    (e, grind arith)

-- What the answer of a request says of the last call: a response is what that call returned, and an
-- error other than 503 is a client error that it raised, which is not tried again.
abbrev pub AnswerExplains : Env → ℕ → Answer → Type 0
AnswerExplains env calls (response r) = (n : ℕ) × (calls ≡ suc n) × (env.reply n ≡ success r)
AnswerExplains env calls (provider_error s) =
    (s ≡ 503)
    ⊎ ((n : ℕ) × (retry_after : Option ℕ) × (calls ≡ suc n)
        × (env.reply n ≡ failure s retry_after)
        × (400 ≤ s)
        × (s < 500)
        × (s ≢ 429))

answer_of-Explains :
    (env : Env) (calls : ℕ) (o : Outcome)
    → Explains env calls o
    → AnswerExplains env calls (answer_of o)
unfolding answer_of
answer_of-Explains env calls (returned r) e = e
answer_of-Explains env calls (rejected s) e = inr e
answer_of-Explains env calls exhausted e = inl refl

-- A request answers with the response of its last call, or with the status of a client error other
-- than 429 that its last call raised, or with 503.
pub chat_with_retry-Explains :
    (env : Env) (settings : Settings) (provider : String) (w : World)
    → let (answer, w') = chat_with_retry env settings provider w in
      AnswerExplains env w'.calls answer
unfolding chat_with_retry
chat_with_retry-Explains env settings provider w =
    let r = try_all env settings (providers_to_try provider settings.chain) w in
    answer_of-Explains env r.1.calls r.0
      (try_all-Within env settings (providers_to_try provider settings.chain) w).0
