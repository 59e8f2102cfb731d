-- ===== src/Auth/Endpoints.antt =====
-- The endpoints of auth.py on issued tokens: refresh, logout, change of a password, and the sessions.
use Prim.Native.String.{◌++◌ as append, slice, len}
use package.text.Mathlib.Text.{starts_with}
use llm_sentinel.Prelude.{
  ℕ, String, Bool, true, false, not, ◌&&◌, ◌||◌, List, [], ◌∷◌, ◌++◌, Option, none, some, ◌==◌,
  string_eq, if◌then◌else◌, select, map, reverse,
}
use llm_sentinel.Prelude.Handler.{Handler, pure, raise, gets, modify_state, ensure, ◌>>=◌, ◌>>◌}
use llm_sentinel.Store.Entry.{Value, text}
use llm_sentinel.Store.Ops.{Store, set_with_ttl, get_value, delete_key, set_members, set_remove}
use llm_sentinel.Security.Password.{PasswordError, validate_password, check_password_history}
use llm_sentinel.Auth.State.{
  PasswordHistory, RefreshToken, Payload, SessionInfo, valid, expired, invalid, Libraries,
  AuthSettings, World, Request, on_store, truthy, first_where, update_first, text_or, sessions_key,
  sessions_detail_key, session_info_key, revoked_key,
}
use llm_sentinel.Auth.Tokens.{TokenResponse, session_seconds, secrets_of}
use llm_sentinel.Auth.Access.{AuthenticatedUser, member}
use llm_sentinel.Auth.Login.{log_audit, verify_password, is_user}

abbrev pub is_live : String → RefreshToken → Bool
is_live token_hash rt =
    rt.token_hash == token_hash && (elim rt.revoked_at [ none ↦ true | some _ ↦ false ])

abbrev revoke_at : ℕ → RefreshToken → RefreshToken
revoke_at now rt = record rt { revoked_at = some now }

-- The column `expires_at` is a DateTime without a zone, so a row is read with a naive time. Its
-- comparison with `datetime.now(timezone.utc)` raises TypeError, and nothing behind it is reached.
unfoldable pub refresh_token_endpoint : Libraries → String → Handler World TokenResponse
refresh_token_endpoint lib refresh_token = do
  let token_hash = lib.sha256 refresh_token
  found ← gets (λ w. first_where (is_live token_hash) w.refresh_tokens)
  elim found [
    | none ↦ raise 401 "Invalid or revoked refresh token"
    | some rt ↦ raise 500 "TypeError"
  ]

-- The token of the header, or that of the cookie.
abbrev token_of : Request → String
token_of request =
    if starts_with request.authorization "Bearer "
      && not (starts_with request.authorization "Bearer sk-proxy-")
    then slice request.authorization 7 (len request.authorization)
    else request.cookie

abbrev pub revoke_jti : AuthSettings → ℕ → String → Store String → Store String
revoke_jti settings now jti s = set_with_ttl now (revoked_key jti) "1" (session_seconds settings) s

abbrev revoke_payload : AuthSettings → ℕ → Payload → Store String → Store String
revoke_payload settings now payload s =
    let jti = text_or "" payload.jti in
    if jti == ""
    then s
    else (let s1 = revoke_jti settings now jti s in
        let s2 = (set_remove (sessions_key (text_or "None" payload.sub)) (jti ∷ []) s1).1 in
        (delete_key (session_info_key jti) s2).1)

-- The loop over the secrets ends at the first that fits.
unfoldable revoke_access :
    Libraries → AuthSettings → ℕ → String → List String → Store String → Store String
revoke_access lib settings now token [] s = s
revoke_access lib settings now token (secret ∷ secrets) s =
    if secret == ""
    then revoke_access lib settings now token secrets s
    else elim (lib.decode_any token secret) [
      | valid payload ↦ revoke_payload settings now payload s
      | expired ↦ revoke_access lib settings now token secrets s
      | invalid error ↦ revoke_access lib settings now token secrets s
    ]

abbrev has_hash : String → RefreshToken → Bool
has_hash token_hash rt = rt.token_hash == token_hash

unfoldable logout : Libraries → AuthSettings → ℕ → Option String → Request → Handler World String
logout lib settings now refresh_token request = do
  let given = text_or "" refresh_token
  modify_state (λ w. if given == "" then w else record w {
    refresh_tokens = update_first (has_hash (lib.sha256 given)) (revoke_at now) w.refresh_tokens;
  })
  modify_state (λ w. if token_of request == "" then w else record w {
    store = revoke_access lib settings now (token_of request) (secrets_of settings) w.store;
  })
  log_audit "AUTH_LOGOUT" none none "User logged out" true
  pure "Logged out successfully"

-- PasswordValidationResult, or the message of a change.
pub data PasswordAnswer : Type 0 where
  changed reused : PasswordAnswer
  refused : List PasswordError → PasswordAnswer

-- The loop over the sessions of the user.
unfoldable pub revoke_sessions : AuthSettings → ℕ → List String → Store String → Store String
revoke_sessions settings now [] s = s
revoke_sessions settings now (jti ∷ jtis) s =
    revoke_sessions settings now jtis
      (delete_key (session_info_key jti) (revoke_jti settings now jti s)).1

unfoldable pub revoke_all_sessions : AuthSettings → ℕ → String → Store String → Store String
revoke_all_sessions settings now name s =
    let (jtis, s1) = set_members now (sessions_key name) s in
    let s2 = revoke_sessions settings now jtis s1 in
    (delete_key (sessions_detail_key name) (delete_key (sessions_key name) s2).1).1

-- The history of a user, newest first.
abbrev history_of : Libraries → List ℕ → String → List PasswordHistory → List (Option Bool)
history_of lib password user_id history =
    map (λ h. some (verify_password lib password h.password_hash))
      (reverse (select (λ h. h.user_id == user_id) history))

unfoldable pub change_password :
    Libraries
    → AuthSettings
    → ℕ
    → AuthenticatedUser
    → List ℕ
    → List ℕ
    → Handler World PasswordAnswer
change_password lib settings now user current_password new_password = do
  found ← gets (λ w. first_where (is_user user.name) w.users)
  elim found [
    | none ↦ raise 404 "User not found"
    | some u ↦
        if verify_password lib current_password u.password_hash
        then (let (is_valid, errors) =
              validate_password lib.is_decimal lib.lower settings.common_passwords new_password
                settings.password_min_length in
            if is_valid
            then (do
              history ← gets (λ w. w.history)
              if check_password_history 5 (history_of lib new_password u.id history)
                  then pure reused
                  else (do
                    let new_hash = lib.hashpw new_password
                    modify_state (λ w. record w {
                      users =
                          update_first (is_user user.name)
                            (λ u. record u { password_hash = new_hash }) w.users;
                      history =
                          w.history ++ (record { user_id = u.id; password_hash = new_hash } ∷ []);
                      store = revoke_all_sessions settings now user.name w.store;
                    })
                    log_audit "CONFIG_CHANGE" (some user.name) (some user.name) "Password changed"
                        true
                    pure changed))
            else pure (refused errors))
        else (do
          log_audit "AUTH_FAILURE" (some user.name) (some user.name)
              "Password change failed: wrong current password" false
          raise 401 "Current password is incorrect")
  ]

-- What is listed of a session whose info cannot be read is its jti and the name.
data Listed : Type 0 where
  session : SessionInfo → Listed
  unreadable : String → Listed

unfoldable list_infos : Libraries → ℕ → List String → Store String → List Listed × Store String
list_infos lib now [] s = ([], s)
list_infos lib now (jti ∷ jtis) s =
    let (info, s1) = get_value now (session_info_key jti) s in
    let (rest, s2) = list_infos lib now jtis s1 in
    (
      elim info [
        | none ↦ rest
        | some v ↦
            if truthy (some v)
            then (elim v [
              | text t ↦ elim (lib.loads t) [
                | none ↦ unreadable jti ∷ rest
                | some i ↦ session i ∷ rest
              ]
              | _ ↦ unreadable jti ∷ rest
            ])
            else rest
      ],
      s2,
    )

unfoldable list_sessions : Libraries → ℕ → AuthenticatedUser → Handler World (List Listed)
list_sessions lib now user = do
  jtis ← on_store (set_members now (sessions_key user.name))
  on_store (list_infos lib now jtis)

-- A stored info that cannot be read does not stop the revocation.
abbrev pub may_revoke : Libraries → AuthenticatedUser → Option (Value String) → Bool
may_revoke lib user none = true
may_revoke lib user (some (text t)) = elim (lib.loads t) [
  | none ↦ true
  | some i ↦ i.subject == user.name || member "admin" user.roles
]
may_revoke lib user (some _) = true

unfoldable pub revoke_session :
    Libraries → AuthSettings → ℕ → AuthenticatedUser → String → Handler World String
revoke_session lib settings now user jti = do
  info ← on_store (get_value now (session_info_key jti))
  ensure (may_revoke lib user info) 403 "Cannot revoke another user's session"
  modify_state (λ w. record w { store = revoke_jti settings now jti w.store })
  on_store (delete_key (session_info_key jti))
  on_store (set_remove (sessions_key user.name) (jti ∷ []))
  log_audit "AUTH_LOGOUT" (some user.name) (some jti) "Session revoked" true
  pure (append "Session " (append jti " revoked"))
