-- ===== src/Clients/Crud.antt =====
-- The CRUD of clients.py. An id, a key and the time are arguments; the listing is left out.
use llm_sentinel.Prelude.{
  ℕ, String, Bool, true, false, List, [], ◌∷◌, ◌++◌, Option, none, some, ◌==◌, string_eq,
}
use llm_sentinel.Guardrails.Request.{or_default}
use llm_sentinel.Auth.State.{Client, first_where, update_first, list_or}
use llm_sentinel.Catalog.Rows.{remove_first}

-- The columns of a client that auth.py does not read.
pub record ClientLimits : Type 0 where
  pub allowed_providers : Option (List String)
  pub allowed_models : Option (List String)
  pub rate_limit_per_minute : ℕ
  pub token_limit_per_minute : ℕ
  pub max_concurrent_requests : ℕ
  pub require_signing : Bool
  pub priority : ℕ
  pub cache_enabled : Bool
  pub ldap_group : Option String
  pub created_at : ℕ
  pub description : Option String

-- A row of the table.
pub record ClientRow : Type 0 where
  pub client : Client
  pub limits : ClientLimits

pub record ClientCreate : Type 0 where
  pub name : String
  pub roles : List String
  pub permissions : List String
  pub allowed_providers : List String
  pub allowed_models : List String
  pub rate_limit_per_minute : ℕ
  pub token_limit_per_minute : ℕ
  pub daily_token_quota : ℕ
  pub max_concurrent_requests : ℕ
  pub require_signing : Bool
  pub priority : ℕ
  pub cache_enabled : Bool
  pub ldap_group : Option String
  pub description : Option String

-- A field that is not given, or null, is none.
pub record ClientUpdate : Type 0 where
  pub name : Option String
  pub roles : Option (List String)
  pub permissions : Option (List String)
  pub allowed_providers : Option (List String)
  pub allowed_models : Option (List String)
  pub rate_limit_per_minute : Option ℕ
  pub token_limit_per_minute : Option ℕ
  pub daily_token_quota : Option ℕ
  pub max_concurrent_requests : Option ℕ
  pub require_signing : Option Bool
  pub priority : Option ℕ
  pub cache_enabled : Option Bool
  pub ldap_group : Option String
  pub is_active : Option Bool
  pub description : Option String

-- ClientResponse: the row without the hash of the key, and with a list wherever one should be.
pub record ClientResponse : Type 0 where
  pub id : String
  pub name : String
  pub roles : List String
  pub permissions : List String
  pub allowed_providers : List String
  pub allowed_models : List String
  pub daily_token_quota : ℕ
  pub is_active : Bool
  pub last_used_at : Option ℕ
  pub limits : ClientLimits

abbrev client_to_response : ClientRow → ClientResponse
client_to_response r = record {
  id = r.client.id;
  name = r.client.name;
  roles = list_or [] r.client.roles;
  permissions = list_or ("*" ∷ []) r.client.permissions;
  allowed_providers = list_or [] r.limits.allowed_providers;
  allowed_models = list_or [] r.limits.allowed_models;
  daily_token_quota = r.client.daily_token_quota;
  is_active = r.client.is_active;
  last_used_at = r.client.last_used_at;
  limits = r.limits;
}

abbrev pub has_client_id : String → ClientRow → Bool
has_client_id client_id r = r.client.id == client_id

unfoldable get_client_by_id : String → List ClientRow → Option ClientResponse
get_client_by_id client_id table = elim (first_where (has_client_id client_id) table) [
  | none ↦ none
  | some r ↦ some (client_to_response r)
]

unfoldable get_client_by_key_hash : String → List ClientRow → Option ClientRow
get_client_by_key_hash key_hash table = first_where (λ r. r.client.api_key_hash == key_hash) table

abbrev pub client_row : String → String → ℕ → ClientCreate → ClientRow
client_row id key_hash now create = record {
  client = record {
    id = id;
    name = create.name;
    api_key_hash = key_hash;
    roles = some create.roles;
    permissions = some create.permissions;
    daily_token_quota = create.daily_token_quota;
    is_active = true;
    last_used_at = none;
  };
  limits = record {
    allowed_providers = some create.allowed_providers;
    allowed_models = some create.allowed_models;
    rate_limit_per_minute = create.rate_limit_per_minute;
    token_limit_per_minute = create.token_limit_per_minute;
    max_concurrent_requests = create.max_concurrent_requests;
    require_signing = create.require_signing;
    priority = create.priority;
    cache_enabled = create.cache_enabled;
    ldap_group = create.ldap_group;
    created_at = now;
    description = create.description;
  };
}

-- `sha256` is hash_api_key, and `plaintext` what generate_api_key makes.
unfoldable pub create_client :
    (String → String)
    → String
    → String
    → ℕ
    → ClientCreate
    → List ClientRow
    → (ClientResponse × String) × List ClientRow
create_client sha256 id plaintext now create table =
    let row = client_row id (sha256 plaintext) now create in
    ((client_to_response row, plaintext), table ++ (row ∷ []))

abbrev or_same {ℓ} : {A : Type ℓ} → Option A → Option A → Option A
or_same old none = old
or_same old (some a) = some a

abbrev pub with_update : ClientUpdate → ClientRow → ClientRow
with_update u r = record {
  client = record r.client {
    name = or_default r.client.name u.name;
    roles = or_same r.client.roles u.roles;
    permissions = or_same r.client.permissions u.permissions;
    daily_token_quota = or_default r.client.daily_token_quota u.daily_token_quota;
    is_active = or_default r.client.is_active u.is_active;
  };
  limits = record r.limits {
    allowed_providers = or_same r.limits.allowed_providers u.allowed_providers;
    allowed_models = or_same r.limits.allowed_models u.allowed_models;
    rate_limit_per_minute = or_default r.limits.rate_limit_per_minute u.rate_limit_per_minute;
    token_limit_per_minute = or_default r.limits.token_limit_per_minute u.token_limit_per_minute;
    max_concurrent_requests = or_default r.limits.max_concurrent_requests u.max_concurrent_requests;
    require_signing = or_default r.limits.require_signing u.require_signing;
    priority = or_default r.limits.priority u.priority;
    cache_enabled = or_default r.limits.cache_enabled u.cache_enabled;
    ldap_group = or_same r.limits.ldap_group u.ldap_group;
    description = or_same r.limits.description u.description;
  };
}

unfoldable pub update_client :
    String → ClientUpdate → List ClientRow → Option ClientResponse × List ClientRow
update_client client_id u table = elim (first_where (has_client_id client_id) table) [
  | none ↦ (none, table)
  | some r ↦ (
    some (client_to_response (with_update u r)),
    update_first (has_client_id client_id) (with_update u) table,
  )
]

unfoldable pub delete_client : String → List ClientRow → Bool × List ClientRow
delete_client client_id table = elim (first_where (has_client_id client_id) table) [
  | none ↦ (false, table)
  | some r ↦ (true, remove_first (has_client_id client_id) table)
]

abbrev pub with_key : String → ClientRow → ClientRow
with_key key_hash r = record r { client = record r.client { api_key_hash = key_hash } }

unfoldable pub regenerate_api_key :
    (String → String)
    → String
    → String
    → List ClientRow
    → Option (ClientResponse × String) × List ClientRow
regenerate_api_key sha256 plaintext client_id table =
    elim (first_where (has_client_id client_id) table) [
      | none ↦ (none, table)
      | some r ↦ (
        some (client_to_response (with_key (sha256 plaintext) r), plaintext),
        update_first (has_client_id client_id) (with_key (sha256 plaintext)) table,
      )
    ]
