-- ===== src/Auth/Ended.antt =====
-- Sessions that end at `/sessions/{jti}`, `/logout` and `/change-password` of auth.py.
use llm_sentinel.Prelude.{
  ℕ, ◌+◌, ◌≤◌, ◌<◌, ◌≡◌, sym, ◌∙◌, subst, String, true, List, [], ◌∷◌, string_eq, arith, Bool-cases,
  inl, inr,
}
use llm_sentinel.Prelude.Handler.{ok}
use llm_sentinel.Breaker.State.{seconds}
use llm_sentinel.Store.Ops.{get_value, delete_key, set_members, set_remove}
use llm_sentinel.Store.Others.{get_value-lookup, set_remove-other}
use llm_sentinel.Auth.Keys.{sessions_key-ne-revoked_key}
use llm_sentinel.Auth.State.{
  Libraries, AuthSettings, World, sessions_key, session_info_key, revoked_key,
}
use llm_sentinel.Auth.Tokens.{session_seconds, decode_token}
use llm_sentinel.Auth.Access.{AuthenticatedUser, member}
use llm_sentinel.Auth.Endpoints.{
  changed, may_revoke, revoke_jti, revoke_session, revoke_all_sessions, change_password,
}
use llm_sentinel.Auth.Revoked.{
  Revoked, Issued, Unauthorized, decode_token-Unauthorized, revoke_jti-Revoked, delete_info-keeps,
  revoke_all_sessions-Revoked,
}

revoke_session-Revoked :
    (lib : Libraries) (settings : AuthSettings) (now later : ℕ) (user : AuthenticatedUser)
    (jti message : String) (w : World)
    → 0 < session_seconds settings
    → later ≤ now + seconds (session_seconds settings)
    → (revoke_session lib settings now user jti w).0 ≡ ok message
    → Revoked later jti (revoke_session lib settings now user jti w).1.store
unfolding revoke_session
revoke_session-Revoked lib settings now later user jti message w lasts within done =
    let (info, s1) = get_value now (session_info_key jti) w.store in
    let s2 = revoke_jti settings now jti s1 in
    let s3 = (delete_key (session_info_key jti) s2).1 in
    let ends : Revoked later jti (set_remove (sessions_key user.name) (jti ∷ []) s3).1 =
      get_value-lookup later (revoked_key jti) _ s3 (
        set_remove-other (sessions_key user.name) (revoked_key jti)
          (sessions_key-ne-revoked_key user.name jti) (jti ∷ []) s3)
      ∙ delete_info-keeps settings now later lasts within jti jti s2
          (revoke_jti-Revoked settings now later lasts within jti s1) in
    elim (Bool-cases (may_revoke lib user info)) [
      | inl may ↦ rw may ends
      | inr barred ↦ absurd (ground (arith, done, barred))
    ]

-- Where tokens last longer than no time, a token of a session that has been revoked is refused
-- with 401 for as long as tokens last.
pub revoke_session-Unauthorized :
    (lib : Libraries) (settings : AuthSettings) (now later : ℕ) (user : AuthenticatedUser)
    (jti message token ip : String) (w : World)
    → 0 < session_seconds settings
    → later ≤ now + seconds (session_seconds settings)
    → (revoke_session lib settings now user jti w).0 ≡ ok message
    → Issued lib settings later token jti
    → Unauthorized
        (decode_token lib settings later token ip (revoke_session lib settings now user jti w).1).0
revoke_session-Unauthorized lib settings now later user jti message token ip w lasts within done
      issued =
    decode_token-Unauthorized lib settings later token ip jti _ issued
      (revoke_session-Revoked lib settings now later user jti message w lasts within done)

change_password-store :
    (lib : Libraries) (settings : AuthSettings) (now : ℕ) (user : AuthenticatedUser)
    (current new : List ℕ) (w : World)
    → (change_password lib settings now user current new w).0 ≡ ok changed
    → (change_password lib settings now user current new w).1.store
      ≡ revoke_all_sessions settings now user.name w.store
unfolding change_password
change_password-store lib settings now user current new w done = ground (arith, done)

-- Where tokens last longer than no time, after a change of the password the token of each session
-- that was active for the user is refused with 401 for as long as tokens last.
pub change_password-Unauthorized :
    (lib : Libraries) (settings : AuthSettings) (now later : ℕ) (user : AuthenticatedUser)
    (current new : List ℕ) (jti token ip : String) (w : World)
    → 0 < session_seconds settings
    → later ≤ now + seconds (session_seconds settings)
    → (change_password lib settings now user current new w).0 ≡ ok changed
    → member jti (set_members now (sessions_key user.name) w.store).0 ≡ true
    → Issued lib settings later token jti
    → Unauthorized
        (decode_token lib settings later token ip
          (change_password lib settings now user current new w).1).0
change_password-Unauthorized lib settings now later user current new jti token ip w lasts within
      done active issued =
    decode_token-Unauthorized lib settings later token ip jti _ issued (
      subst (Revoked later jti)
        (sym (change_password-store lib settings now user current new w done))
        (revoke_all_sessions-Revoked settings now later lasts within jti user.name w.store active))
