-- ===== src/Auth/Issued.antt =====
-- A token that create_token_pair of auth.py issues is accepted by decode_token.
use llm_sentinel.Prelude.{
  ℕ, ◌+◌, ◌/◌, ◌≤◌, ◌<◌, ◌≡◌, arith, refl, ◌∙◌, String, false, List, [], ◌∷◌, Option, none, ◌==◌,
  string_eq,
}
use llm_sentinel.Prelude.Handler.{ok}
use llm_sentinel.Breaker.State.{seconds}
use llm_sentinel.Store.Ops.{Store, get_value, set_add, zadd, expire}
use llm_sentinel.Store.Others.{
  get_value-lookup, set_with_ttl-other, set_add-other, expire-other, zadd-other,
}
use llm_sentinel.Auth.Keys.{
  session_info_key-ne-revoked_key, sessions_key-ne-revoked_key, sessions_detail_key-ne-revoked_key,
}
use llm_sentinel.Auth.State.{
  Payload, valid, Libraries, AuthSettings, World, sessions_key, sessions_detail_key,
  session_info_key, revoked_key,
}
use llm_sentinel.Auth.Tokens.{
  TokenResponse, Fresh, create_access_token, create_token_pair, enforce_max_sessions, track_session,
  payload_of, session_seconds, decode_secrets, decode_token, is_bound_elsewhere, secrets_of,
}

-- PyJWT writes the times of the claims in whole seconds.
abbrev pub cut : Payload → Payload
cut p = record p { exp = seconds (p.exp / 1000000); iat = seconds (p.iat / 1000000) }

-- What PyJWT documents: from the time of issue until it expires, as written, a token decodes with
-- its secret to the claims as written.
abbrev Decodes : Libraries → Payload → Type 0
Decodes lib p =
    (secret : String) (t : ℕ)
    → (cut p).iat ≤ t
    → t < (cut p).exp
    → lib.decode t (lib.encode p secret) secret ≡ valid (cut p)

track_session-revoked :
    (lib : Libraries) (settings : AuthSettings) (now later : ℕ) (jti other subject ip : String)
    (user_agent : Option String) (s : Store String)
    → (get_value later
        (revoked_key other)
        (track_session lib settings now jti subject ip user_agent s)).0
      ≡ (get_value later (revoked_key other) s).0
unfolding track_session
track_session-revoked lib settings now later jti other subject ip user_agent s =
    let ttl = session_seconds settings in
    let s1 = (set_add now (sessions_key subject) (jti ∷ []) s).1 in
    let s2 = (expire now (sessions_key subject) (ttl + 300) s1).1 in
    let s3 = (zadd now (sessions_detail_key subject) ((jti, now) ∷ []) s2).1 in
    let s4 = (expire now (sessions_detail_key subject) (ttl + 300) s3).1 in
    let active = sessions_key-ne-revoked_key subject other in
    let order = sessions_detail_key-ne-revoked_key subject other in
    get_value-lookup later (revoked_key other) _ s (
      set_with_ttl-other (session_info_key jti) (revoked_key other)
        (session_info_key-ne-revoked_key jti other) now _ ttl s4
      ∙ expire-other (sessions_detail_key subject) (revoked_key other) order now (ttl + 300) s3
      ∙ zadd-other (sessions_detail_key subject) (revoked_key other) order now ((jti, now) ∷ []) s2
      ∙ expire-other (sessions_key subject) (revoked_key other) active now (ttl + 300) s1
      ∙ set_add-other (sessions_key subject) (revoked_key other) active now (jti ∷ []) s)

decode_secrets-issued :
    (lib : Libraries) (settings : AuthSettings) (later : ℕ) (p : Payload)
    → Decodes lib p
    → (settings.jwt_secret == "") ≡ false
    → (cut p).iat ≤ later
    → later < (cut p).exp
    → decode_secrets lib later (lib.encode p settings.jwt_secret) (secrets_of settings) "None"
      ≡ ok (cut p)
unfolding decode_secrets
decode_secrets-issued lib settings later p decodes secret issued soon =
    rw (secret, decodes settings.jwt_secret later issued soon) refl

-- With a library that decodes what it encodes until that expires, and cuts its times to whole
-- seconds, a token that is issued under a secret is decoded from then on to its claims, with the
-- times cut, until the time of its expiry so cut, from an address that it is not bound against, if
-- its id has not been revoked before.
pub decode_token-create_token_pair :
    (lib : Libraries) (settings : AuthSettings) (now later : ℕ) (fresh : Fresh) (subject : String)
    (roles : List String) (ip request_ip : String) (user_agent : Option String) (w : World)
    → Decodes lib (payload_of lib settings now fresh.jti subject roles ip user_agent)
    → (settings.jwt_secret == "") ≡ false
    → now ≤ later
    → later < seconds ((now + seconds (session_seconds settings)) / 1000000)
    → (fresh.jti == "") ≡ false
    → (get_value later
        (revoked_key fresh.jti)
        (enforce_max_sessions settings now subject w.store)).0
      ≡ none
    → is_bound_elsewhere settings request_ip
        (payload_of lib settings now fresh.jti subject roles ip user_agent)
      ≡ false
    → (response : TokenResponse) × ((create_token_pair lib settings now fresh subject roles ip
          user_agent w).0
        ≡ ok response)
      × ((decode_token lib settings later response.access_token request_ip
            (create_token_pair lib settings now fresh subject roles ip user_agent w).1).0
          ≡ ok (cut (payload_of lib settings now fresh.jti subject roles ip user_agent)))
unfolding create_token_pair create_access_token decode_token
decode_token-create_token_pair lib settings now later fresh subject roles ip request_ip user_agent w
      decodes secret after soon named unrevoked here =
    let p = payload_of lib settings now fresh.jti subject roles ip user_agent in
    let s = enforce_max_sessions settings now subject w.store in
    let decoded =
      decode_secrets-issued lib settings later p decodes secret (omega (arith, after)) soon in
    let live =
      track_session-revoked lib settings now later fresh.jti fresh.jti subject ip user_agent s
      ∙ unrevoked in
    (_, refl, rw (decoded, here, named, live) refl)
