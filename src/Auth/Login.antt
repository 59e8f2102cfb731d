-- ===== src/Auth/Login.antt =====
-- local_authenticate, login and ldap_login of auth.py, and verify_password of password_utils.py. A
-- handler reads the clock once.
use Prim.Native.String.{◌++◌ as append}
use llm_sentinel.Prelude.{
  ℕ, String, Bool, true, false, ◌&&◌, List, [], ◌∷◌, ◌++◌, Option, none, some, leb, ◌==◌, string_eq,
  if◌then◌else◌,
}
use llm_sentinel.Prelude.Handler.{Handler, pure, raise, gets, modify_state, ensure, ◌>>=◌, ◌>>◌}
use llm_sentinel.Store.Ops.{set_with_ttl, get_value, delete_key, increment, expire}
use llm_sentinel.Auth.State.{
  LocalUser, Libraries, AuthSettings, World, Request, on_store, truthy, first_where, update_first,
  list_or, lockout_key, fail_key,
}
use llm_sentinel.Auth.Tokens.{TokenResponse, Fresh, create_token_pair}

-- `_log_audit`: what is written fails without notice; the address is left out.
abbrev pub log_audit :
    String → Option String → Option String → String → Bool → Handler World (Unit {0})
log_audit event_type actor target detail success = modify_state λ w. record w {
  audit =
      w.audit
      ++ (record {
        event_type = event_type;
        actor = actor;
        target = target;
        detail = detail;
        success = success;
      }
          ∷ []);
}

-- An exception of bcrypt counts as a wrong password.
abbrev pub verify_password : Libraries → List ℕ → String → Bool
verify_password lib password hashed = elim (lib.checkpw password hashed) [
  | none ↦ false
  | some matches ↦ matches
]

-- A counter that holds no number makes `increment` raise.
unfoldable pub record_auth_failure : ℕ → String → Handler World (Unit {0})
record_auth_failure now username = do
  count ← on_store (increment now (fail_key username) 1)
  elim count [
    | none ↦ raise 500 "ValueError"
    | some n ↦ do
      on_store (expire now (fail_key username) 900)
      if leb 5 n
          then modify_state
              (λ w. record w { store = set_with_ttl now (lockout_key username) "1" 900 w.store })
          else pure tt
  ]

abbrev pub is_user : String → LocalUser → Bool
is_user username u = u.username == username

abbrev pub is_active_user : String → LocalUser → Bool
is_active_user username u = is_user username u && u.is_active

unfoldable pub local_authenticate :
    Libraries → ℕ → String → List ℕ → Handler World (Bool × List String)
local_authenticate lib now username password = do
  locked ← on_store (get_value now (lockout_key username))
  if truthy locked then pure (false, []) else do
    user ← gets (λ w. first_where (is_active_user username) w.users)
    elim user [
      | none ↦ do record_auth_failure now username; pure (false, [])
      | some u ↦
          if verify_password lib password u.password_hash
          then (do
            on_store (delete_key (fail_key username))
            modify_state (λ w. record w {
              users =
                  update_first (is_active_user username)
                    (λ u. record u { last_login_at = some now }) w.users;
            })
            pure (true, list_or [] u.roles))
          else (do record_auth_failure now username; pure (false, []))
    ]

unfoldable login :
    Libraries → AuthSettings → ℕ → Fresh → String → List ℕ → Request → Handler World TokenResponse
login lib settings now fresh username password request = do
  (success, roles) ← local_authenticate lib now username password
  if success
      then (do
        response ←
            create_token_pair lib settings now fresh username roles request.ip request.user_agent
        log_audit "AUTH_SUCCESS" (some username) none "Local login" true
        pure response)
      else (do
        log_audit "AUTH_FAILURE" (some username) none "Local login failed" false
        raise 401 "Invalid username or password")

-- `ldap` is the answer of `ldap_authenticate`: success, roles and the distinguished name. Its cache
-- entry, which nothing reads, is left out.
unfoldable ldap_login :
    Libraries
    → AuthSettings
    → ℕ
    → Fresh
    → (String → List ℕ → Bool × List String × String)
    → String
    → List ℕ
    → Request
    → Handler World TokenResponse
ldap_login lib settings now fresh ldap username password request = do
  ensure settings.ldap_enabled 400 "LDAP authentication is not enabled"
  let (success, roles, dn) = ldap username password
  if success
      then (do
        response ←
            create_token_pair lib settings now fresh username roles request.ip request.user_agent
        log_audit "AUTH_SUCCESS" (some username) none (append "LDAP login (dn=" (append dn ")"))
            true
        pure response)
      else (do
        log_audit "AUTH_FAILURE" (some username) none "LDAP login failed" false
        raise 401 "LDAP authentication failed")
