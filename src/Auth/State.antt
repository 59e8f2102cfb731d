-- ===== src/Auth/State.antt =====
-- What auth.py works on: the rows of db.py that it reads and writes, the shared store, and what it
-- takes from PyJWT, hashlib, bcrypt and json.
use Prim.Native.String.{◌++◌ as append}
use llm_sentinel.Prelude.{
  ℕ, String, Bool, false, not, List, [], ◌∷◌, Option, none, some, ◌==◌, string_eq, nat_beq,
  if◌then◌else◌, length,
}
use llm_sentinel.Prelude.Handler.{ok, Handler}
use llm_sentinel.Store.Entry.{Value, text, members, sorted_set}
use llm_sentinel.Store.Ops.{Store}

-- JSON columns that should hold a list are none where they hold something else.
pub record Client : Type 0 where
  pub id : String
  pub name : String
  pub api_key_hash : String
  pub roles : Option (List String)
  pub permissions : Option (List String)
  pub daily_token_quota : ℕ
  pub is_active : Bool
  pub last_used_at : Option ℕ

pub record LocalUser : Type 0 where
  pub id : String
  pub username : String
  pub password_hash : String
  pub roles : Option (List String)
  pub is_active : Bool
  pub last_login_at : Option ℕ

pub record PasswordHistory : Type 0 where
  pub user_id : String
  pub password_hash : String

pub record RefreshToken : Type 0 where
  pub client_id : String
  pub token_hash : String
  pub expires_at : ℕ
  pub revoked_at : Option ℕ
  pub ip : Option String
  pub user_agent : Option String

pub record AuditLog : Type 0 where
  pub event_type : String
  pub actor : Option String
  pub target : Option String
  pub detail : String
  pub success : Bool

-- The claims of a token. A foreign token with a valid signature may lack some of them.
pub record Payload : Type 0 where
  pub sub : Option String
  pub roles : Option (List String)
  pub exp : ℕ
  pub iat : ℕ
  pub jti : Option String
  pub ip : Option String
  pub fp : String

-- `session_info:{jti}`
pub record SessionInfo : Type 0 where
  pub jti : String
  pub subject : String
  pub ip : String
  pub user_agent : String
  pub created_at : ℕ
  pub expires_at : ℕ

-- `jwt.decode` answers with the claims, or raises ExpiredSignatureError or another
-- InvalidTokenError with its text.
pub data Decoded : Type 0 where
  valid : Payload → Decoded
  expired : Decoded
  invalid : String → Decoded

-- A password is a list of code points. `decode` is at a time, `decode_any` with `verify_exp` off;
-- `checkpw` is none where bcrypt raises; `loads` is none where json or the constructor raises.
pub record Libraries : Type 0 where
  pub encode : Payload → String → String
  pub decode : ℕ → String → String → Decoded
  pub decode_any : String → String → Decoded
  pub sha256 : String → String
  pub checkpw : List ℕ → String → Option Bool
  pub hashpw : List ℕ → String
  pub dumps : SessionInfo → String
  pub loads : String → Option SessionInfo
  pub is_decimal : ℕ → Bool
  pub lower : List ℕ → List ℕ

-- The settings of config.py.
pub record AuthSettings : Type 0 where
  pub jwt_secret : String
  pub jwt_secret_previous : String
  pub jwt_expiry_hours : ℕ
  pub jwt_refresh_expiry_days : ℕ
  pub jwt_bind_ip : Bool
  pub jwt_max_sessions : ℕ
  pub ldap_enabled : Bool
  pub password_min_length : ℕ
  pub common_passwords : List (List ℕ)

pub record World : Type 0 where
  pub store : Store String
  pub clients : List Client
  pub users : List LocalUser
  pub history : List PasswordHistory
  pub refresh_tokens : List RefreshToken
  pub audit : List AuditLog

-- A request as auth.py reads it: the address that `_get_client_ip` gives, and headers and cookie.
pub record Request : Type 0 where
  pub ip : String
  pub user_agent : Option String
  pub api_key : String
  pub authorization : String
  pub bearer : String
  pub cookie : String

-- A call of the store.
abbrev pub on_store {ℓ} : {A : Type ℓ} → (Store String → A × Store String) → Handler World A
on_store f w = let (a, s) = f w.store in (ok a, record w { store = s })

-- `if value:` on what the store gives.
abbrev pub truthy : Option (Value String) → Bool
truthy none = false
truthy (some (text t)) = not (t == "")
truthy (some (members ms)) = not (nat_beq (length ms) 0)
truthy (some (sorted_set z)) = not (nat_beq (length z) 0)

module _ {ℓ} {A : Type ℓ} where
  -- `scalars().first()` of a query with a condition.
  abbrev pub first_where : (A → Bool) → List A → Option A
  first_where p [] = none
  first_where p (x ∷ xs) = if p x then some x else first_where p xs

  -- An assignment to a field of the row that such a query gives.
  abbrev pub update_first : (A → Bool) → (A → A) → List A → List A
  update_first p f [] = []
  update_first p f (x ∷ xs) = if p x then f x ∷ xs else x ∷ update_first p f xs

abbrev pub list_or : List String → Option (List String) → List String
list_or default none = default
list_or default (some xs) = xs

abbrev pub text_or : String → Option String → String
text_or default none = default
text_or default (some t) = t

abbrev pub lockout_key : String → String
lockout_key username = append "auth_lockout:" username

abbrev pub fail_key : String → String
fail_key username = append "auth_failures:" username

abbrev pub sessions_key : String → String
sessions_key subject = append "sessions:" subject

abbrev pub sessions_detail_key : String → String
sessions_detail_key subject = append "sessions_detail:" subject

abbrev pub session_info_key : String → String
session_info_key jti = append "session_info:" jti

abbrev pub revoked_key : String → String
revoked_key jti = append "revoked:" jti
