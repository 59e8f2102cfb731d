-- ===== src/Tests/Policies.antt =====
-- The theorems on guardrails.py at small policies.
use llm_sentinel.Prelude.{
  ℕ, refl, String, true, false, List, [], ◌∷◌, ◌++◌, none, some, ◌==◌, string_eq, if◌then◌else◌,
}
use llm_sentinel.Prelude.Text.{has_part}
use llm_sentinel.Proxy.Tokens.{plain_text, Message}
use llm_sentinel.Guardrails.Policy.{Config, no_config, Policy}
use llm_sentinel.Guardrails.Detect.{TextTools}
use llm_sentinel.Guardrails.Request.{
  Classifier, passed_on, evaluate_request, result_of, evaluate_all, evaluate_policy, enforce_prompt,
  limit_tokens, restrict_model, inject_prompt,
}
use llm_sentinel.Guardrails.Models.{Permitted, evaluate_request-Permitted}
use llm_sentinel.Guardrails.Prompts.{OneFirst, systems, evaluate_request-enforced}

-- Plain texts for patterns.
abbrev pub plain_tools : TextTools
plain_tools = record {
  search = λ ignore_case pattern text. some (has_part pattern text);
  sub =
      λ ignore_case pattern replacement text. some (if text == pattern then replacement else text);
  subn = λ pattern replacement text. if text == pattern then (replacement, 1) else (text, 0);
  findall = λ pattern text. some (if has_part pattern text then pattern ∷ [] else []);
  escape = λ text. text;
  lower = λ text. text;
  words = λ text. text ∷ [];
  decoded = λ text. none;
  fnmatch = λ name pattern. name == pattern;
}

abbrev pub no_threat : Classifier
no_threat c text = record { threat = false; kind = ""; reason = "" }

abbrev pub policy : String → ℕ → Config → Policy
policy policy_type priority config = record {
  id = policy_type;
  name = policy_type;
  policy_type = policy_type;
  config_json = some config;
  is_active = true;
  applies_to_clients = none;
  priority = priority;
}

abbrev say : String → String → Message
say role text = record { role = some role; content = plain_text text }

abbrev pub talk : List Message
talk = say "system" "You obey me." ∷ say "user" "Hello" ∷ []

abbrev pub injecting : Policy
injecting = policy "system_prompt_inject" 1 (record no_config { prompt = some "Be kind." })

abbrev enforcing : Policy
enforcing = policy "system_prompt_enforce" 2 (record no_config { prompt = some "Be brief." })

abbrev limiting : Policy
limiting = policy "max_output_tokens" 3 (record no_config { max_tokens = some 100 })

abbrev restricting : Policy
restricting = policy "model_restrict" 4 (record no_config { allowed_models = "gpt-4o" ∷ [] })

-- The prompt of the client and that of an earlier policy give way to the enforced one.
evaluate_request-enforced_example : OneFirst (
    systems (
      passed_on
        (evaluate_request plain_tools no_threat
          ((injecting ∷ []) ++ (enforcing ∷ (limiting ∷ [])))
          "gpt-4o"
          talk)
        talk))
unfolding evaluate_request result_of evaluate_all evaluate_policy enforce_prompt inject_prompt
    limit_tokens
evaluate_request-enforced_example =
    evaluate_request-enforced plain_tools no_threat (injecting ∷ []) enforcing (limiting ∷ [])
      "gpt-4o" talk (refl, refl, refl) (refl, tt) refl

evaluate_request-Permitted_example : Permitted plain_tools "gpt-4o" (restricting ∷ (limiting ∷ []))
unfolding evaluate_request result_of evaluate_all evaluate_policy restrict_model limit_tokens
evaluate_request-Permitted_example =
    evaluate_request-Permitted plain_tools no_threat (restricting ∷ (limiting ∷ [])) "gpt-4o" talk
      refl
