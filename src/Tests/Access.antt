-- ===== src/Tests/Access.antt =====
-- The theorems on auth.py and clients.py at a small database.
use llm_sentinel.Prelude.{
  ℕ, ◌+◌, ◌≡◌, refl, arith, String, true, false, ◌&&◌, List, [], ◌∷◌, ◌++◌, lookup, none, some,
  ◌==◌, string_eq, nat_beq, if◌then◌else◌, length,
}
use llm_sentinel.Prelude.Handler.{ok, raises}
use llm_sentinel.Store.Entry.{members}
use llm_sentinel.Store.Ops.{
  Store, get_value, set_members, at_key, get_value_entry, set_members_entry,
}
use llm_sentinel.Security.Password.{validate_password, check_password_history}
use llm_sentinel.Auth.State.{
  LocalUser, RefreshToken, Payload, valid, invalid, Libraries, AuthSettings, World, Request,
  list_or, truthy, lockout_key, fail_key,
}
use llm_sentinel.Auth.Tokens.{
  Fresh, TokenResponse, create_token_pair, decode_token, decode_secrets, enforce_max_sessions,
}
use llm_sentinel.Auth.Login.{local_authenticate}
use llm_sentinel.Auth.Access.{AuthenticatedUser}
use llm_sentinel.Auth.Endpoints.{refresh_token_endpoint, revoke_session, change_password}
use llm_sentinel.Auth.Revoked.{Issued, Unauthorized}
use llm_sentinel.Auth.Ended.{revoke_session-Unauthorized, change_password-Unauthorized}
use llm_sentinel.Auth.LoggedIn.{local_authenticate-true}
use llm_sentinel.Auth.Lockout.{local_authenticate-locked, attempt}
use llm_sentinel.Auth.Refreshed.{refresh_token_endpoint-create_token_pair}
use llm_sentinel.Auth.Issued.{decode_token-create_token_pair}
use llm_sentinel.Clients.Quota.{TokenUsage, get_quota_usage, record_token_usage}
use llm_sentinel.Clients.Spent.{get_quota_usage-record_token_usage}

abbrev pub settings : AuthSettings
settings = record {
  jwt_secret = "s3cret";
  jwt_secret_previous = "";
  jwt_expiry_hours = 1;
  jwt_refresh_expiry_days = 7;
  jwt_bind_ip = true;
  jwt_max_sessions = 3;
  ldap_enabled = false;
  password_min_length = 8;
  common_passwords = [];
}

-- The claims that the one token of these tests carries.
abbrev claims : Payload
claims = record {
  sub = some "ada";
  roles = some ("admin" ∷ []);
  exp = 3600000000;
  iat = 0;
  jti = some "j1";
  ip = some "10.0.0.1";
  fp = "10.0.0.1:";
}

-- The password is its own hash, 1 for "1" and so on.
abbrev pub libraries : Libraries
libraries = record {
  encode = λ payload secret. "token";
  decode = λ now token secret. if token == "token" then valid claims else invalid "DecodeError";
  decode_any = λ token secret. valid claims;
  sha256 = λ t. t;
  checkpw = λ password hashed. some (nat_beq (length password) 8 && hashed == "eight");
  hashpw = λ password. "nine";
  dumps = λ info. info.subject;
  loads = λ t. some (record {
    jti = "j1";
    subject = t;
    ip = "";
    user_agent = "";
    created_at = 0;
    expires_at = 0;
  });
  is_decimal = λ c. nat_beq c 49;
  lower = λ t. t;
}

abbrev ada : LocalUser
ada = record {
  id = "u1";
  username = "ada";
  password_hash = "eight";
  roles = some ("admin" ∷ []);
  is_active = true;
  last_login_at = none;
}

abbrev row : RefreshToken
row = record {
  client_id = "ada";
  token_hash = "refresh1";
  expires_at = 700000000;
  revoked_at = none;
  ip = some "10.0.0.1";
  user_agent = none;
}

abbrev one_session : Store String
one_session = ("sessions:ada", record { value = members ("j1" ∷ []); expires_at = none }) ∷ []

abbrev pub world : World
world = record {
  store = one_session;
  clients = [];
  users = ada ∷ [];
  history = [];
  refresh_tokens = row ∷ [];
  audit = [];
}

abbrev pub from_ada : Request
from_ada = record {
  ip = "10.0.0.1";
  user_agent = none;
  api_key = "";
  authorization = "";
  bearer = "token";
  cookie = "";
}

abbrev user : AuthenticatedUser
user = record {
  name = "ada";
  roles = "admin" ∷ [];
  permissions = "*" ∷ [];
  client_id = none;
  is_api_client = false;
}

-- Eight characters, and a new password of nine.
abbrev right : List ℕ
right = 65 ∷ 97 ∷ 49 ∷ 33 ∷ 65 ∷ 97 ∷ 49 ∷ 33 ∷ []

abbrev new : List ℕ
new = 65 ∷ 97 ∷ 49 ∷ 33 ∷ 65 ∷ 97 ∷ 49 ∷ 33 ∷ 33 ∷ []

abbrev wrong : List ℕ
wrong = 1 ∷ []

abbrev issued : Issued libraries settings 1000000 "token" "j1"
unfolding decode_secrets
issued = record { payload = claims; decoded = refl; has_jti = refl; some_jti = refl }

revoke_session-Unauthorized_example :
    Unauthorized
      (decode_token libraries settings 1000000 "token" "10.0.0.1"
        (revoke_session libraries settings 0 user "j1" world).1).0
unfolding revoke_session get_value at_key get_value_entry
revoke_session-Unauthorized_example =
    revoke_session-Unauthorized libraries settings 0 1000000 user "j1" "Session j1 revoked" "token"
      "10.0.0.1" world (omega arith) (omega arith) refl issued

change_password-Unauthorized_example :
    Unauthorized
      (decode_token libraries settings 1000000 "token" "10.0.0.1"
        (change_password libraries settings 0 user right new world).1).0
unfolding change_password validate_password check_password_history set_members at_key
    set_members_entry
change_password-Unauthorized_example =
    change_password-Unauthorized libraries settings 0 1000000 user right new "j1" "token" "10.0.0.1"
      world (omega arith) (omega arith) refl refl issued

local_authenticate-true_example :
    let w' = (local_authenticate libraries 0 "ada" right world).1 in
    (truthy (get_value 0 (lockout_key "ada") world.store).0 ≡ false)
    × (lookup (fail_key "ada") w'.store ≡ none)
    × ((u : LocalUser) × (before : List LocalUser) × (after : List LocalUser) × (world.users
          ≡ before ++ (u ∷ after))
        × (w'.users ≡ before ++ (record u { last_login_at = some 0 } ∷ after))
        × (u.username ≡ "ada")
        × (u.is_active ≡ true)
        × (libraries.checkpw right u.password_hash ≡ some true)
        × ("admin" ∷ [] ≡ list_or [] u.roles))
unfolding local_authenticate get_value at_key get_value_entry
local_authenticate-true_example =
    local_authenticate-true libraries 0 "ada" right ("admin" ∷ []) world refl

abbrev attempts : List (ℕ × List ℕ)
attempts = (1000000, wrong) ∷ (2000000, wrong) ∷ (3000000, wrong) ∷ (4000000, wrong) ∷ []

-- Five wrong passwords within seconds lock out the right one.
local_authenticate-locked_example :
    (local_authenticate libraries 5000000 "ada" right
      (attempt libraries "ada" ((0, wrong) ∷ attempts) world)).0
    ≡ ok (false, [])
local_authenticate-locked_example =
    local_authenticate-locked libraries "ada" 0 5000000 wrong right attempts world refl refl refl
      refl (refl, (refl, (refl, (refl, tt))))
      (omega arith, (omega arith, (omega arith, (omega arith, tt)))) (omega arith)

abbrev first : Fresh
first = record { jti = "j1"; refresh_value = "refresh2" }

refresh_token_endpoint-create_token_pair_example :
    let (result, w') =
      create_token_pair libraries settings 0 first "ada" [] "10.0.0.1" none world in
    (response : TokenResponse) × (result ≡ ok response)
    × (refresh_token_endpoint libraries response.refresh_token w' ≡ (raises 500 "TypeError", w'))
refresh_token_endpoint-create_token_pair_example =
    refresh_token_endpoint-create_token_pair libraries settings 0 first "ada" [] "10.0.0.1" none
      world

decode_token-create_token_pair_example :
    (response : TokenResponse) × ((create_token_pair libraries settings 500000 first "ada"
        ("admin" ∷ [])
        "10.0.0.1"
        none
        world).0
      ≡ ok response)
    × ((decode_token libraries settings 1000000 response.access_token "10.0.0.1"
          (create_token_pair libraries settings 500000 first "ada"
            ("admin" ∷ [])
            "10.0.0.1"
            none
            world).1).0
        ≡ ok claims)
unfolding enforce_max_sessions set_members set_members_entry get_value get_value_entry at_key
decode_token-create_token_pair_example =
    decode_token-create_token_pair libraries settings 500000 1000000 first "ada" ("admin" ∷ [])
      "10.0.0.1" "10.0.0.1" none world (λ secret t after soon. refl) refl (omega arith)
      (omega arith) refl refl refl

abbrev day : List TokenUsage
day =
    record {
      client_id = "c1";
      date = "2026-01-01";
      provider = "openai";
      model = "gpt-4o";
      input_tokens = 10;
      output_tokens = 5;
    }
    ∷ []

get_quota_usage-record_token_usage_example :
    let before = get_quota_usage "c1" "2026-01-01" [] day in
    let behind =
      get_quota_usage "c1" "2026-01-01" []
        (record_token_usage "2026-01-01" "c1" "openai" "gpt-4o" 20 7 day) in
    (behind.input_tokens ≡ before.input_tokens + 20)
    × (behind.output_tokens ≡ before.output_tokens + 7)
    × (behind.daily_quota ≡ before.daily_quota)
get_quota_usage-record_token_usage_example =
    get_quota_usage-record_token_usage "c1" "2026-01-01" "c1" "2026-01-01" "openai" "gpt-4o" 20 7 []
      day
