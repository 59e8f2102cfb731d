-- ===== src/Proxy/Called.antt =====
-- How often `_chat_with_retry` of llm_proxy.py calls each provider.
use llm_sentinel.Prelude.{
  ℕ, zero, suc, ◌+◌, ◌*◌, ◌≤◌, ◌≡◌, refl, sym, ap, ◌∙◌, subst, String, Bool, true, false, List, [],
  ◌∷◌, ◌++◌, Option, none, some, arith, ◌==◌, string_eq, if◌then◌else◌, length, select, Bool-cases,
  inl, inr,
}
use text.Mathlib.TextEquality.{eq_iff}
use llm_sentinel.KeyPool.Pool.{get_next_key}
use llm_sentinel.KeyPool.Manager.{get_pool, set_pool}
use llm_sentinel.Breaker.Manager
use llm_sentinel.Proxy.Providers.{has, providers_to_try, Distinct, providers_to_try_lem}
use llm_sentinel.Proxy.Retry.{
  Reply, success, failure, Env, World, Settings, Outcome, returned, rejected, exhausted, Round,
  goes_on, ends, mark_reply, call_if, with_key, attempt, try_provider, try_all, chat_with_retry,
}

-- How often a provider stands in a list.
abbrev pub count : String → List String → ℕ
count p xs = length (select (λ q. q == p) xs)

count-append :
    (p q : String) (xs : List String)
    → count p (xs ++ (q ∷ [])) ≡ count p xs + (if q == p then 1 else 0)
count-append p q [] = ground arith
count-append p q (x ∷ xs) = ground (arith, count-append p q xs)

count-cons :
    (p x : String) (xs : List String) → count p (x ∷ xs) ≡ (if x == p then 1 else 0) + count p xs
count-cons p x xs = ground arith

times-split : (m a b : ℕ) → m * a + m * b ≡ m * (a + b)
times-split m a b = grind arith

times-once : (m n : ℕ) → n ≤ 1 → m * n ≤ m
times-once m zero h = omega arith
times-once m (suc zero) h = omega arith
times-once m (suc (suc n)) h = absurd (omega (arith, h))

count-none : (p : String) (xs : List String) → has p xs ≡ false → count p xs ≡ 0
count-none p [] h = refl
count-none p (x ∷ xs) h = ground (arith, h, count-none p xs)

-- A provider of a list without repetition stands in it once.
count-Distinct : (p : String) (xs : List String) → Distinct xs → count p xs ≤ 1
count-Distinct p [] d = omega arith
count-Distinct p (x ∷ xs) d = elim (Bool-cases (x == p)) [
  | inl e ↦
      let absent : has p xs ≡ false =
        subst (λ (q : String). has q xs ≡ false) ((eq_iff x p).0 e) d.0 in
      ground (arith, e, count-none p xs absent)
  | inr e ↦ ground (arith, e, count-Distinct p xs d.1)
]

mark_reply-called :
    (now : ℕ) (prov : String) (i : ℕ) (r : Reply) (w : World)
    → (mark_reply now prov i r w).called ≡ w.called
unfolding mark_reply
mark_reply-called now prov i (success r) w = refl
mark_reply-called now prov i (failure s a) w = ground arith

module _ (p : String) where
  -- At most `n` calls of the provider `p` are made on the way from one state to another.
  abbrev AtMost : ℕ → World → World → Type 0
  AtMost n w w' = count p w'.called ≤ count p w.called + n

  call_if-AtMost :
      (env : Env) (now : ℕ) (prov : String) (i : ℕ) (free : Bool) (w : World)
      → AtMost (if prov == p then 1 else 0) w (call_if env now prov i free w).1
  unfolding call_if
  call_if-AtMost env now prov i false w = omega arith
  call_if-AtMost env now prov i true w =
      let w' = record w { calls = w.calls + 1; called = w.called ++ (prov ∷ []) } in
      let same : count p (mark_reply now prov i (env.reply w.calls) w').called
          ≡ count p w.called + (if prov == p then 1 else 0) =
        ap (count p) (mark_reply-called now prov i (env.reply w.calls) w')
        ∙ count-append p prov w.called in
      omega (arith, same)

  with_key-AtMost :
      (env : Env) (now : ℕ) (prov : String) (key : Option (String × ℕ)) (w : World)
      → AtMost (if prov == p then 1 else 0) w (with_key env now prov key w).1
  unfolding with_key
  with_key-AtMost env now prov none w = omega arith
  with_key-AtMost env now prov (some (key, i)) w =
      let polled = Manager.available now prov i w.breakers in
      call_if-AtMost env now prov i polled.1 (record w { breakers = polled.0 })

  attempt-AtMost :
      (env : Env) (settings : Settings) (prov : String) (w : World)
      → AtMost (if prov == p then 1 else 0) w (attempt env settings prov w).1
  unfolding attempt
  attempt-AtMost env settings prov w =
      let now : ℕ = env.now w.attempts in
      let got = get_next_key now settings.strategy (env.draw w.attempts) (get_pool prov w.pools) in
      with_key-AtMost env now prov got.0
        (record w { pools = set_pool prov got.1 w.pools; attempts = w.attempts + 1 })

  after_round :
      (m n : ℕ) (w : World) (q : Round × World) (again : Outcome × World)
      → AtMost m w q.1
      → AtMost n q.1 again.1
      → AtMost
          (m + n)
          w
          (elim q.0 as (λ _. Outcome × World) [ goes_on ↦ again | ends o ↦ (o, q.1) ]).1
  after_round m n w (goes_on, w') again a h = omega arith
  after_round m n w (ends o, w') again a h = omega arith

  try_provider-AtMost :
      (n : ℕ) (env : Env) (settings : Settings) (prov : String) (w : World)
      → AtMost (n * (if prov == p then 1 else 0)) w (try_provider n env settings prov w).1
  unfolding try_provider
  try_provider-AtMost zero env settings prov w = omega arith
  try_provider-AtMost (suc n) env settings prov w =
      let q = attempt env settings prov w in
      let one = if prov == p then 1 else 0 in
      let h =
        after_round one (n * one) w q (try_provider n env settings prov q.1)
          (attempt-AtMost env settings prov w) (try_provider-AtMost n env settings prov q.1) in
      grind (arith, h)

  after_provider :
      (m n : ℕ) (w : World) (q others : Outcome × World)
      → AtMost m w q.1
      → AtMost n q.1 others.1
      → AtMost
          (m + n)
          w
          (elim q.0 as (λ _. Outcome × World) [
            | exhausted ↦ others
            | returned r ↦ (returned r, q.1)
            | rejected s ↦ (rejected s, q.1)
          ]).1
  after_provider m n w (returned r, w') others h k = omega arith
  after_provider m n w (rejected s, w') others h k = omega arith
  after_provider m n w (exhausted, w') others h k = omega arith

  try_all-AtMost :
      (env : Env) (settings : Settings) (provs : List String) (w : World)
      → AtMost (settings.max_retries * count p provs) w (try_all env settings provs w).1
  unfolding try_all
  try_all-AtMost env settings [] w = omega arith
  try_all-AtMost env settings (prov ∷ provs) w =
      let q = try_provider settings.max_retries env settings prov w in
      let one = if prov == p then 1 else 0 in
      subst (λ (n : ℕ). AtMost n w (try_all env settings (prov ∷ provs) w).1)
        (times-split settings.max_retries one (count p provs)
          ∙ ap (λ (n : ℕ). settings.max_retries * n) (sym (count-cons p prov provs)))
        (after_provider (settings.max_retries * one) (settings.max_retries * count p provs) w q
          (try_all env settings provs q.1)
          (try_provider-AtMost settings.max_retries env settings prov w)
          (try_all-AtMost env settings provs q.1))

-- A request calls no provider more than MAX_RETRIES times, and none but the one that it asks for and
-- those of the fallback chain.
pub chat_with_retry-calls :
    (env : Env) (settings : Settings) (provider p : String) (w : World)
    → count p (chat_with_retry env settings provider w).1.called
      ≤ count p w.called
        + (if provider == p
            then settings.max_retries
            else if has p settings.chain
            then settings.max_retries
            else 0)
unfolding chat_with_retry
chat_with_retry-calls env settings provider p w =
    let provs = providers_to_try provider settings.chain in
    let (first, distinct, among) = providers_to_try_lem provider settings.chain in
    let all = try_all-AtMost p env settings provs w in
    let once = count-Distinct p provs distinct in
    let absent = count-none p provs in
    elim (Bool-cases (has p provs)) [
      | inl tried ↦
          let bound : settings.max_retries * count p provs ≤ settings.max_retries =
            times-once settings.max_retries (count p provs) once in
          let within : (if provider == p then true else has p settings.chain) ≡ true =
            sym (among p) ∙ tried in
          ground (arith, bound, all, within)
      | inr untried ↦
          let none_called : AtMost p (settings.max_retries * 0) w (try_all env settings provs w).1 =
            subst
              (λ (n : ℕ). AtMost p (settings.max_retries * n) w (try_all env settings provs w).1)
              (absent untried) all in
          ground (arith, none_called)
    ]
