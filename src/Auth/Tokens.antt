-- ===== src/Auth/Tokens.antt =====
-- create_access_token, create_token_pair and decode_token of auth.py.
use Prim.Native.String.{◌++◌ as append, slice}
use llm_sentinel.Prelude.{
  ℕ, ◌+◌, ◌-◌, ◌*◌, zero, suc, max, String, Bool, not, ◌&&◌, List, [], ◌∷◌, ◌++◌, Option, none,
  some, leb, ◌==◌, string_eq, if◌then◌else◌, length, map, lookup,
}
use llm_sentinel.Prelude.Handler.{
  Result, ok, raises, Handler, pure, modify_state, ensure, ◌>>=◌, ◌>>◌,
}
use llm_sentinel.Breaker.State.{seconds}
use llm_sentinel.Store.Entry.{as_sorted_set}
use llm_sentinel.Store.Ops.{
  Store, set_with_ttl, get_value, set_add, set_members, set_remove, zadd, zrangebyscore,
  zremrangebyscore, expire,
}
use llm_sentinel.Auth.State.{
  RefreshToken, Payload, valid, expired, invalid, Libraries, AuthSettings, World, on_store, truthy,
  text_or, sessions_key, sessions_detail_key, session_info_key, revoked_key,
}

-- What `uuid4` and `token_hex` give to one call.
pub record Fresh : Type 0 where
  pub jti : String
  pub refresh_value : String

pub record TokenResponse : Type 0 where
  pub access_token : String
  pub refresh_token : String
  pub expires_in : ℕ

abbrev pub session_seconds : AuthSettings → ℕ
session_seconds settings = settings.jwt_expiry_hours * 3600

abbrev fingerprint : Libraries → String → Option String → String
fingerprint lib ip user_agent =
    slice (lib.sha256 (append ip (append ":" (text_or "" user_agent)))) 0 16

abbrev pub payload_of :
    Libraries → AuthSettings → ℕ → String → String → List String → String → Option String → Payload
payload_of lib settings now jti subject roles ip user_agent = record {
  sub = some subject;
  roles = some roles;
  exp = now + seconds (session_seconds settings);
  iat = now;
  jti = some jti;
  ip = some ip;
  fp = fingerprint lib ip user_agent;
}

unfoldable pub create_access_token :
    Libraries → AuthSettings → ℕ → String → String → List String → String → Option String → String
create_access_token lib settings now jti subject roles ip user_agent =
    lib.encode (payload_of lib settings now jti subject roles ip user_agent) settings.jwt_secret

-- `xs[:n]`
abbrev take {ℓ} : {A : Type ℓ} → ℕ → List A → List A
take zero xs = []
take (suc n) [] = []
take (suc n) (x ∷ xs) = x ∷ take n xs

-- No score of the key is greater: the bound `float("inf")`.
abbrev greatest : List (String × ℕ) → ℕ
greatest [] = 0
greatest ((m, score) ∷ z) = max score (greatest z)

abbrev highest : String → Store String → ℕ
highest key s = elim (lookup key s) [ none ↦ 0 | some r ↦ greatest (as_sorted_set r.value) ]

-- The loop over the oldest sessions.
unfoldable pub revoke_oldest : ℕ → ℕ → String → List String → Store String → Store String
revoke_oldest now ttl subject [] s = s
revoke_oldest now ttl subject (old_jti ∷ jtis) s =
    let s1 = set_with_ttl now (revoked_key old_jti) "1" ttl s in
    let s2 = (set_remove (sessions_key subject) (old_jti ∷ []) s1).1 in
    revoke_oldest now ttl subject jtis (zremrangebyscore (sessions_detail_key subject) 0 0 s2).1

unfoldable pub enforce_max_sessions : AuthSettings → ℕ → String → Store String → Store String
enforce_max_sessions settings now subject s =
    let (active, s1) = set_members now (sessions_key subject) s in
    if leb settings.jwt_max_sessions (length active)
    then (let (all_sessions, s2) =
          zrangebyscore now (sessions_detail_key subject) 0
            (highest (sessions_detail_key subject) s1) s1 in
        revoke_oldest now (session_seconds settings) subject
          (take (length active + 1 - settings.jwt_max_sessions) (map (λ m. m.0) all_sessions)) s2)
    else s1

-- The set of active sessions, their order, and what `/sessions` lists.
unfoldable pub track_session :
    Libraries
    → AuthSettings
    → ℕ
    → String
    → String
    → String
    → Option String
    → Store String
    → Store String
track_session lib settings now jti subject ip user_agent s =
    let ttl = session_seconds settings in
    let s1 = (set_add now (sessions_key subject) (jti ∷ []) s).1 in
    let s2 = (expire now (sessions_key subject) (ttl + 300) s1).1 in
    let s3 = (zadd now (sessions_detail_key subject) ((jti, now) ∷ []) s2).1 in
    let s4 = (expire now (sessions_detail_key subject) (ttl + 300) s3).1 in
    set_with_ttl now (session_info_key jti)
      (lib.dumps (record {
        jti = jti;
        subject = subject;
        ip = ip;
        user_agent = text_or "" user_agent;
        created_at = now;
        expires_at = now + seconds ttl;
      }))
      ttl s4

abbrev pub refresh_row :
    Libraries → AuthSettings → ℕ → Fresh → String → String → Option String → RefreshToken
refresh_row lib settings now fresh subject ip user_agent = record {
  client_id = subject;
  token_hash = lib.sha256 fresh.refresh_value;
  expires_at = now + seconds (settings.jwt_refresh_expiry_days * 86400);
  revoked_at = none;
  ip = some ip;
  user_agent = user_agent;
}

unfoldable pub create_token_pair :
    Libraries
    → AuthSettings
    → ℕ
    → Fresh
    → String
    → List String
    → String
    → Option String
    → Handler World TokenResponse
create_token_pair lib settings now fresh subject roles ip user_agent = do
  modify_state (λ w. record w { store = enforce_max_sessions settings now subject w.store })
  let access_token = create_access_token lib settings now fresh.jti subject roles ip user_agent
  modify_state (λ w. record w {
    store = track_session lib settings now fresh.jti subject ip user_agent w.store;
  })
  modify_state (λ w. record w {
    refresh_tokens =
        w.refresh_tokens ++ (refresh_row lib settings now fresh subject ip user_agent ∷ []);
  })
  pure (record {
    access_token = access_token;
    refresh_token = fresh.refresh_value;
    expires_in = session_seconds settings;
  })

-- The loop over the two secrets, of which an empty one is skipped, with the last error.
unfoldable pub decode_secrets : Libraries → ℕ → String → List String → String → Result Payload
decode_secrets lib now token [] last_error = raises 401 (append "Invalid token: " last_error)
decode_secrets lib now token (secret ∷ secrets) last_error =
    if secret == ""
    then decode_secrets lib now token secrets last_error
    else elim (lib.decode now token secret) [
      | valid payload ↦ ok payload
      | expired ↦ raises 401 "Token expired"
      | invalid error ↦ decode_secrets lib now token secrets error
    ]

abbrev pub secrets_of : AuthSettings → List String
secrets_of settings = settings.jwt_secret ∷ settings.jwt_secret_previous ∷ []

abbrev pub is_bound_elsewhere : AuthSettings → String → Payload → Bool
is_bound_elsewhere settings request_ip payload =
    let token_ip = text_or "" payload.ip in
    settings.jwt_bind_ip
    && not (request_ip == "")
    && not (token_ip == "")
    && not (token_ip == request_ip)

unfoldable pub decode_token : Libraries → AuthSettings → ℕ → String → String → Handler World Payload
decode_token lib settings now token request_ip = do
  payload ← λ w. (decode_secrets lib now token (secrets_of settings) "None", w)
  ensure (not (is_bound_elsewhere settings request_ip payload)) 401 "Token IP mismatch"
  let jti = text_or "" payload.jti
  if jti == "" then pure payload else do
    revoked ← on_store (get_value now (revoked_key jti))
    ensure (not (truthy revoked)) 401 "Token has been revoked"
    pure payload
