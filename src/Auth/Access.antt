-- ===== src/Auth/Access.antt =====
-- Who a request comes from, and the checks of roles and permissions (auth.py).
use Prim.Native.String.{◌++◌ as append, slice, len}
use text.Mathlib.Text.{starts_with}
use llm_sentinel.Prelude.{
  ℕ, String, Bool, true, false, ◌&&◌, List, [], ◌∷◌, Option, none, some, ◌==◌, string_eq,
  if◌then◌else◌,
}
use llm_sentinel.Prelude.Handler.{Result, ok, raises, Handler, pure, raise, gets, ◌>>=◌}
use llm_sentinel.Auth.State.{
  Client, Payload, Libraries, AuthSettings, World, Request, first_where, list_or, text_or,
}
use llm_sentinel.Auth.Tokens.{decode_token}

pub record AuthenticatedUser : Type 0 where
  pub name : String
  pub roles : List String
  pub permissions : List String
  pub client_id : Option String
  pub is_api_client : Bool

abbrev pub owns_key : String → Client → Bool
owns_key key_hash c = c.api_key_hash == key_hash && c.is_active

-- The key of the header `X-API-Key`, or of `Authorization: Bearer sk-proxy-…`.
abbrev pub key_of : Request → String
key_of request =
    if request.api_key == ""
    then (if starts_with request.authorization "Bearer sk-proxy-"
        then slice request.authorization 7 (len request.authorization)
        else "")
    else request.api_key

abbrev pub client_user : Client → AuthenticatedUser
client_user c = record {
  name = c.name;
  roles = list_or ("api_client" ∷ []) c.roles;
  permissions = list_or ("*" ∷ []) c.permissions;
  client_id = some c.id;
  is_api_client = true;
}

abbrev token_user : Payload → AuthenticatedUser
token_user payload = record {
  name = text_or "unknown" payload.sub;
  roles = list_or [] payload.roles;
  permissions = "*" ∷ [];
  client_id = none;
  is_api_client = false;
}

-- `bearer` is the credential that HTTPBearer finds, "" without one.
unfoldable pub get_current_user :
    Libraries → AuthSettings → ℕ → Request → Handler World AuthenticatedUser
get_current_user lib settings now request =
    if key_of request == ""
    then (if request.bearer == ""
        then (if request.cookie == ""
            then raise 401 "Authentication required"
            else decode_token lib settings now request.cookie request.ip >>= λ payload.
                pure (token_user payload))
        else decode_token lib settings now request.bearer request.ip >>= λ payload.
            pure (token_user payload))
    else gets (λ w. first_where (owns_key (lib.sha256 (key_of request))) w.clients) >>= λ client.
        elim client [ none ↦ raise 401 "Invalid API key" | some c ↦ pure (client_user c) ]

abbrev pub member : String → List String → Bool
member x [] = false
member x (y ∷ ys) = if y == x then true else member x ys

abbrev checked : Bool → String → AuthenticatedUser → Result AuthenticatedUser
checked true detail user = ok user
checked false detail user = raises 403 detail

abbrev verify_admin : AuthenticatedUser → Result AuthenticatedUser
verify_admin user = checked (member "admin" user.roles) "Admin role required" user

abbrev any_role : List String → List String → Bool
any_role allowed [] = false
any_role allowed (r ∷ roles) = if member r allowed then true else any_role allowed roles

abbrev verify_admin_or_client : AuthenticatedUser → Result AuthenticatedUser
verify_admin_or_client user =
    checked (any_role ("admin" ∷ "operator" ∷ "api_client" ∷ []) user.roles) "Insufficient role"
      user

abbrev verify_role : String → AuthenticatedUser → Result AuthenticatedUser
verify_role required_role user =
    checked (member required_role user.roles) (append "Role '" (append required_role "' required"))
      user

abbrev verify_permission : String → AuthenticatedUser → Result AuthenticatedUser
verify_permission required_permission user =
    if member "*" user.permissions
    then ok user
    else checked (member required_permission user.permissions)
        (append "Permission '" (append required_permission "' required")) user
