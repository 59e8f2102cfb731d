-- ===== src/Guardrails/Admin.antt =====
-- The administration of policies in guardrails.py, on the table of ContentPolicyDB.
use llm_sentinel.Prelude.{
  ℕ, ◌+◌, String, Bool, true, false, List, [], ◌∷◌, ◌++◌, Option, none, some, ◌==◌, string_eq,
  if◌then◌else◌,
}
use llm_sentinel.Prelude.Text.{has_part}
use llm_sentinel.Proxy.Tokens.{Message}
use llm_sentinel.Guardrails.Policy.{Config, no_config, Policy, config_of, order_by_priority}
use llm_sentinel.Guardrails.Detect.{TextTools, any}
use llm_sentinel.Guardrails.Request.{Evaluation, or_default, all_text, system_message}

get_all_policies : List Policy → List Policy
unfolding order_by_priority
get_all_policies rows = order_by_priority rows

-- ContentPolicyCreate.
record PolicyCreate : Type 0 where
  pub name : String
  pub policy_type : String
  pub config_json : Option Config
  pub applies_to_clients : Option (List String)
  pub priority : ℕ

-- A new row is active; its id is an argument.
abbrev row_of : String → PolicyCreate → Policy
row_of id created = record {
  id = id;
  name = created.name;
  policy_type = created.policy_type;
  config_json = created.config_json;
  is_active = true;
  applies_to_clients = created.applies_to_clients;
  priority = created.priority;
}

unfoldable create_policy : String → PolicyCreate → List Policy → Policy × List Policy
create_policy id created rows = (row_of id created, rows ++ (row_of id created ∷ []))

-- ContentPolicyUpdate: what is not given stays.
record PolicyUpdate : Type 0 where
  pub name : Option String
  pub config_json : Option Config
  pub is_active : Option Bool
  pub applies_to_clients : Option (List String)
  pub priority : Option ℕ

abbrev or_else {ℓ} : {A : Type ℓ} → Option A → Option A → Option A
or_else none old = old
or_else (some new) old = some new

abbrev updated : PolicyUpdate → Policy → Policy
updated u p = record p {
  name = or_default p.name u.name;
  config_json = or_else u.config_json p.config_json;
  is_active = or_default p.is_active u.is_active;
  applies_to_clients = or_else u.applies_to_clients p.applies_to_clients;
  priority = or_default p.priority u.priority;
}

-- The row with an id.
abbrev find_policy : String → List Policy → Option Policy
find_policy id [] = none
find_policy id (p ∷ ps) = if p.id == id then some p else find_policy id ps

unfoldable update_policy : String → PolicyUpdate → List Policy → Option Policy × List Policy
update_policy id u [] = (none, [])
update_policy id u (p ∷ ps) =
    let (found, rest) = update_policy id u ps in
    if p.id == id then (some (updated u p), updated u p ∷ ps) else (found, p ∷ rest)

unfoldable delete_policy : String → List Policy → Bool × List Policy
delete_policy id [] = (false, [])
delete_policy id (p ∷ ps) =
    let (found, rest) = delete_policy id ps in if p.id == id then (true, ps) else (found, p ∷ rest)

abbrev allows : Evaluation
allows = record {
  allowed = true;
  applied_policies = [];
  modified_messages = none;
  reject_reason = none;
}

abbrev refuses : String → List String → Evaluation
refuses reason applied = record {
  allowed = false;
  applied_policies = applied;
  modified_messages = none;
  reject_reason = some reason;
}

-- `_evaluate_single`, which knows three of the types.
unfoldable evaluate_single : TextTools → Policy → List Message → String → Evaluation
evaluate_single tools p messages model =
    let c = config_of p in
    if p.policy_type == "topic_block"
    then (if any (λ kw. has_part (tools.lower kw) (tools.lower (all_text messages)))
          c.blocked_keywords
        then refuses (or_default "Topic blocked" c.message) (p.name ∷ [])
        else allows)
    else if p.policy_type == "model_restrict"
    then elim c.allowed_models [
      | [] ↦ allows
      | pat ∷ pats ↦
          if any (tools.fnmatch model) (pat ∷ pats)
          then allows
          else refuses (or_default "Model not allowed" c.deny_message) (p.name ∷ [])
    ]
    else if p.policy_type == "system_prompt_inject"
    then record allows {
      modified_messages = some (system_message (or_default "" c.prompt) ∷ messages);
      applied_policies = p.name ∷ [];
    }
    else allows

unfoldable test_policy : TextTools → List Policy → String → List Message → String → Evaluation
unfolding evaluate_single
test_policy tools rows id messages model = elim (find_policy id rows) [
  | none ↦ refuses "Policy not found" []
  | some p ↦ evaluate_single tools p messages model
]

abbrev builtin : String → String → Option String → Option String → Option String → ℕ → PolicyCreate
builtin name policy_type action message sensitivity priority = record {
  name = name;
  policy_type = policy_type;
  config_json =
      some (record no_config { action = action; message = message; sensitivity = sensitivity });
  applies_to_clients = none;
  priority = priority;
}

-- BUILTIN_SECURITY_POLICIES.
abbrev builtin_security_policies : List PolicyCreate
builtin_security_policies =
    builtin "Prompt Injection Protection" "prompt_injection_detect" (some "reject")
      (some "Request blocked: prompt injection detected.") (some "medium") 1
    ∷ builtin "Jailbreak Protection" "jailbreak_detect" (some "reject")
        (some "Request blocked: jailbreak attempt detected.") none 2
    ∷ builtin "Data Leakage Prevention" "data_leakage_prevent" (some "redact") none none 90
    ∷ []

abbrev has_name : String → List Policy → Bool
has_name name [] = false
has_name name (p ∷ ps) = if p.name == name then true else has_name name ps

-- The loop of `seed_security_policies`; `new_id` gives the id of the row with a number.
unfoldable seed_policies : (ℕ → String) → List PolicyCreate → List Policy → ℕ → ℕ × List Policy
seed_policies new_id [] rows count = (count, rows)
seed_policies new_id (b ∷ bs) rows count =
    let exists = has_name b.name rows in
    seed_policies new_id bs (if exists then rows else rows ++ (row_of (new_id count) b ∷ []))
      (if exists then count else count + 1)

unfoldable seed_security_policies : (ℕ → String) → List Policy → ℕ × List Policy
unfolding seed_policies
seed_security_policies new_id rows = seed_policies new_id builtin_security_policies rows 0
