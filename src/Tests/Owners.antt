-- ===== src/Tests/Owners.antt =====
-- The theorems on the keys of clients, the first admin and signatures at small inputs.
use llm_sentinel.Prelude.{
  ℕ, ◌≡◌, refl, true, false, List, [], ◌∷◌, ◌++◌, none, some, ◌==◌, string_eq,
}
use llm_sentinel.Prelude.Handler.{ok, raises}
use llm_sentinel.Store.Ops.{get_value, get_value_entry, at_key}
use llm_sentinel.Security.Password.{validate_password}
use llm_sentinel.Auth.State.{Libraries, Request}
use llm_sentinel.Auth.Login.{local_authenticate}
use llm_sentinel.Auth.Access.{get_current_user}
use llm_sentinel.Auth.Bootstrap.{created, create_admin, create_admin-local_authenticate}
use llm_sentinel.Clients.Crud.{
  ClientCreate, ClientRow, client_row, create_client, delete_client, regenerate_api_key,
  ClientUpdate, update_client,
}
use llm_sentinel.Clients.Keys.{with_rows, get_current_user-create_client, get_current_user-old_key}
use llm_sentinel.Tests.Access.{settings, libraries, world, from_ada}

abbrev web : ClientCreate
web = record {
  name = "web";
  roles = "api_client" ∷ [];
  permissions = "chat" ∷ [];
  allowed_providers = [];
  allowed_models = [];
  rate_limit_per_minute = 60;
  token_limit_per_minute = 50000;
  daily_token_quota = 0;
  max_concurrent_requests = 10;
  require_signing = false;
  priority = 5;
  cache_enabled = false;
  ldap_group = none;
  description = none;
}

abbrev with_header : Request
with_header = record from_ada { api_key = "key1" }

get_current_user-create_client_example :
    (get_current_user libraries settings 9 with_header
      (with_rows world (create_client libraries.sha256 "c1" "key1" 9 web []).1)).0
    ≡ ok (record {
      name = "web";
      roles = "api_client" ∷ [];
      permissions = "chat" ∷ [];
      client_id = some "c1";
      is_api_client = true;
    })
get_current_user-create_client_example =
    get_current_user-create_client libraries settings 9 with_header world "c1" "key1" web [] refl
      refl refl

abbrev client_table : List ClientRow
client_table = client_row "c2" "key2" 0 web ∷ (client_row "c1" "key1" 0 web ∷ [])

abbrev paused : ClientUpdate
paused = record {
  name = none;
  roles = none;
  permissions = none;
  allowed_providers = none;
  allowed_models = none;
  rate_limit_per_minute = none;
  token_limit_per_minute = none;
  daily_token_quota = none;
  max_concurrent_requests = none;
  require_signing = none;
  priority = none;
  cache_enabled = none;
  ldap_group = none;
  is_active = some false;
  description = none;
}

get_current_user-old_key_example :
    ((get_current_user libraries settings 9 with_header
        (with_rows world (delete_client "c1" client_table).1)).0
      ≡ raises 401 "Invalid API key")
    × (((get_current_user libraries settings 9 with_header
            (with_rows world (regenerate_api_key libraries.sha256 "key3" "c1" client_table).1)).0
          ≡ raises 401 "Invalid API key")
        × ((get_current_user libraries settings 9 with_header
              (with_rows world (update_client "c1" paused client_table).1)).0
            ≡ raises 401 "Invalid API key"))
get_current_user-old_key_example =
    get_current_user-old_key libraries settings 9 with_header world "c1" "key3" paused client_table
      refl (refl, tt) refl refl refl

-- "Abc1!xyz": in these tests only the digit 1 is a decimal.
abbrev strong : List ℕ
strong = 65 ∷ 98 ∷ 99 ∷ 49 ∷ 33 ∷ 120 ∷ 121 ∷ 122 ∷ []

abbrev hashing : Libraries
hashing = record libraries { hashpw = λ password. "eight" }

-- The first entry is not confirmed, and the second is too short.
create_admin-local_authenticate_example :
    let (outcome, w') =
      create_admin hashing settings
        (λ u. u.username == "root")
        "u2"
        "eve"
        (((strong, []) ∷ ((49 ∷ [], 49 ∷ []) ∷ [])) ++ ((strong, strong) ∷ []))
        world in
    (outcome ≡ created)
    × ((local_authenticate hashing 9 "eve" strong w').0 ≡ ok (true, "admin" ∷ []))
unfolding validate_password get_value get_value_entry at_key
create_admin-local_authenticate_example =
    create_admin-local_authenticate hashing settings (λ u. u.username == "root") 9 "u2" "eve"
      ((strong, []) ∷ ((49 ∷ [], 49 ∷ []) ∷ [])) strong strong [] world refl refl refl
      (refl, (refl, tt)) refl refl refl
