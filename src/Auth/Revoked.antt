-- ===== src/Auth/Revoked.antt =====
-- Tokens that auth.py has revoked are refused.
use llm_sentinel.Prelude.{
  ℕ, ◌+◌, ◌≤◌, ◌<◌, ◌≡◌, refl, ap, ◌∙◌, subst, String, true, false, List, [], ◌∷◌, some, ◌==◌,
  string_eq, arith, Bool-cases, inl, inr,
}
use llm_sentinel.Prelude.Handler.{Result, ok, raises}
use llm_sentinel.Breaker.State.{seconds}
use llm_sentinel.Store.Entry.{text}
use llm_sentinel.Store.Ops.{Store, get_value, delete_key, set_members}
use llm_sentinel.Store.Laws.{get_value-set_with_ttl}
use llm_sentinel.Store.Others.{get_value-lookup, set_with_ttl-other, delete_key-other}
use llm_sentinel.Auth.Keys.{
  session_info_key-ne-revoked_key, sessions_key-ne-revoked_key, sessions_detail_key-ne-revoked_key,
}
use llm_sentinel.Auth.State.{
  Payload, Libraries, AuthSettings, World, text_or, sessions_key, sessions_detail_key,
  session_info_key, revoked_key, text_or,
}
use llm_sentinel.Auth.Tokens.{
  session_seconds, secrets_of, decode_token, decode_secrets, is_bound_elsewhere,
}
use llm_sentinel.Auth.Access.{member}
use llm_sentinel.Auth.Endpoints.{revoke_jti, revoke_sessions, revoke_all_sessions}

-- The store has the mark of a revoked session, and it is read at the time.
abbrev pub Revoked : ℕ → String → Store String → Type 0
Revoked later jti s = (get_value later (revoked_key jti) s).0 ≡ some (text "1")

-- The claims of a token that some secret fits at the time, and its id.
pub record Issued (lib : Libraries) (settings : AuthSettings) (now : ℕ) (token jti : String)
    : Type 0 where
  pub payload : Payload
  pub decoded : decode_secrets lib now token (secrets_of settings) "None" ≡ ok payload
  pub has_jti : payload.jti ≡ some jti
  pub some_jti : (jti == "") ≡ false

-- 401 with some detail.
abbrev pub Unauthorized {ℓ} : {A : Type ℓ} → Result A → Type ℓ
Unauthorized r = (detail : String) × (r ≡ raises 401 detail)

pub decode_token-Unauthorized :
    (lib : Libraries) (settings : AuthSettings) (now : ℕ) (token ip jti : String) (w : World)
    → Issued lib settings now token jti
    → Revoked now jti w.store
    → Unauthorized (decode_token lib settings now token ip w).0
unfolding decode_token
decode_token-Unauthorized lib settings now token ip jti w i revoked =
    let there : text_or "" i.payload.jti ≡ jti = ap (text_or "") i.has_jti in
    let marked : (get_value now (revoked_key (text_or "" i.payload.jti)) w.store).0
        ≡ some (text "1") =
      ap (λ j. (get_value now (revoked_key j) w.store).0) there ∙ revoked in
    let named : (text_or "" i.payload.jti == "") ≡ false = ap (λ j. j == "") there ∙ i.some_jti in
    elim (Bool-cases (is_bound_elsewhere settings ip i.payload)) [
      | inl elsewhere ↦ ("Token IP mismatch", rw (i.decoded, elsewhere) refl)
      | inr here ↦ ("Token has been revoked", rw (i.decoded, here, named, marked) refl)
    ]

module _ (settings : AuthSettings) (now later : ℕ) (lasts : 0 < session_seconds settings)
    (within : later ≤ now + seconds (session_seconds settings)) where
  pub revoke_jti-Revoked :
      (jti : String) (s : Store String) → Revoked later jti (revoke_jti settings now jti s)
  revoke_jti-Revoked jti s =
      get_value-set_with_ttl now later (session_seconds settings) (revoked_key jti) "1" s
      ∙ ground arith

  revoke_jti-keeps :
      (jti other : String) (s : Store String)
      → Revoked later jti s
      → Revoked later jti (revoke_jti settings now other s)
  revoke_jti-keeps jti other s h = elim (Bool-cases (revoked_key other == revoked_key jti)) [
    | inl same ↦
        subst (λ key. (get_value later key (revoke_jti settings now other s)).0 ≡ some (text "1"))
          ((string_eq.agrees_iff (revoked_key other) (revoked_key jti)).0 same)
          (revoke_jti-Revoked other s)
    | inr differs ↦
        get_value-lookup later (revoked_key jti) _ s (
          set_with_ttl-other (revoked_key other) (revoked_key jti) differs now "1"
            (session_seconds settings) s)
        ∙ h
  ]

  pub delete_info-keeps :
      (jti other : String) (s : Store String)
      → Revoked later jti s
      → Revoked later jti (delete_key (session_info_key other) s).1
  delete_info-keeps jti other s h =
      get_value-lookup later (revoked_key jti) _ s (
        delete_key-other (session_info_key other) (revoked_key jti)
          (session_info_key-ne-revoked_key other jti) s)
      ∙ h

  revoke_sessions-keeps :
      (jti : String) (jtis : List String) (s : Store String)
      → Revoked later jti s
      → Revoked later jti (revoke_sessions settings now jtis s)
  unfolding revoke_sessions
  revoke_sessions-keeps jti [] s h = h
  revoke_sessions-keeps jti (other ∷ jtis) s h =
      revoke_sessions-keeps jti jtis
        (delete_key (session_info_key other) (revoke_jti settings now other s)).1
        (delete_info-keeps jti other (revoke_jti settings now other s)
          (revoke_jti-keeps jti other s h))

  revoke_sessions-Revoked :
      (jti : String) (jtis : List String) (s : Store String)
      → member jti jtis ≡ true
      → Revoked later jti (revoke_sessions settings now jtis s)
  unfolding revoke_sessions
  revoke_sessions-Revoked jti [] s h = absurd (ground (arith, h))
  revoke_sessions-Revoked jti (other ∷ jtis) s h = elim (Bool-cases (other == jti)) [
    | inl same ↦
        revoke_sessions-keeps jti jtis
          (delete_key (session_info_key other) (revoke_jti settings now other s)).1
          (delete_info-keeps jti other (revoke_jti settings now other s) (
            subst (λ j. Revoked later j (revoke_jti settings now other s))
              ((string_eq.agrees_iff other jti).0 same) (revoke_jti-Revoked other s)))
    | inr differs ↦ revoke_sessions-Revoked jti jtis _ (ground (arith, h, differs))
  ]

  pub revoke_all_sessions-Revoked :
      (jti name : String) (s : Store String)
      → member jti (set_members now (sessions_key name) s).0 ≡ true
      → Revoked later jti (revoke_all_sessions settings now name s)
  unfolding revoke_all_sessions
  revoke_all_sessions-Revoked jti name s h =
      let (jtis, s1) = set_members now (sessions_key name) s in
      let s2 = revoke_sessions settings now jtis s1 in
      get_value-lookup later (revoked_key jti) _ s2 (
        delete_key-other (sessions_detail_key name) (revoked_key jti)
          (sessions_detail_key-ne-revoked_key name jti) (delete_key (sessions_key name) s2).1
        ∙ delete_key-other (sessions_key name) (revoked_key jti)
            (sessions_key-ne-revoked_key name jti) s2)
      ∙ revoke_sessions-Revoked jti jtis s1 h
