-- ===== src/Guardrails/Policy.antt =====
-- A content policy of guardrails.py: the rows of ContentPolicyDB and their configuration.
use llm_sentinel.Prelude.{
  ℕ, String, Bool, true, false, List, [], ◌∷◌, Option, none, some, leb, ◌==◌, string_eq,
  if◌then◌else◌, select,
}

-- The keys of `config_json` that the code reads, each of which may be missing; a list that is missing
-- counts as empty, a flag that is missing as false.
pub record Config : Type 0 where
  pub prompt : Option String
  pub allow_client_system : Bool
  pub action : Option String
  pub blocked_keywords : List String
  pub blocked_patterns : List String
  pub message : Option String
  pub allowed_models : List String
  pub deny_message : Option String
  pub max_tokens : Option ℕ
  pub sensitivity : Option String
  pub mode : Option String
  pub check_pii : Bool
  pub check_profanity : Bool
  pub profanity_list : List String

-- `{}`
abbrev pub no_config : Config
no_config = record {
  prompt = none;
  allow_client_system = false;
  action = none;
  blocked_keywords = [];
  blocked_patterns = [];
  message = none;
  allowed_models = [];
  deny_message = none;
  max_tokens = none;
  sensitivity = none;
  mode = none;
  check_pii = false;
  check_profanity = false;
  profanity_list = [];
}

-- A row; `config_json` may be NULL, which counts as `{}`.
pub record Policy : Type 0 where
  pub id : String
  pub name : String
  pub policy_type : String
  pub config_json : Option Config
  pub is_active : Bool
  pub applies_to_clients : Option (List String)
  pub priority : ℕ

abbrev pub config_of : Policy → Config
config_of p = elim p.config_json [ none ↦ no_config | some c ↦ c ]

-- `order_by(priority)`, where rows of one priority stay in the order of the table.
unfoldable pub insert_by_priority : Policy → List Policy → List Policy
insert_by_priority p [] = p ∷ []
insert_by_priority p (q ∷ qs) =
    if leb p.priority q.priority then p ∷ q ∷ qs else q ∷ insert_by_priority p qs

unfoldable pub order_by_priority : List Policy → List Policy
unfolding insert_by_priority
order_by_priority [] = []
order_by_priority (p ∷ ps) = insert_by_priority p (order_by_priority ps)

abbrev pub has : String → List String → Bool
has x [] = false
has x (y ∷ ys) = if y == x then true else has x ys

-- The test of the loop of `_load_policies`: a request without a client, or with the empty id, has
-- every policy.
abbrev pub applies_to : Option String → Policy → Bool
applies_to client_id p = elim p.applies_to_clients [
  | none ↦ true
  | some clients ↦ elim client_id [
    | none ↦ true
    | some id ↦ if id == "" then true else has id clients
  ]
]

unfoldable pub load_policies : Option String → List Policy → List Policy
unfolding order_by_priority
load_policies client_id rows =
    select (applies_to client_id) (order_by_priority (select (λ p. p.is_active) rows))
