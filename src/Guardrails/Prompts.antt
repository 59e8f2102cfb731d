-- ===== src/Guardrails/Prompts.antt =====
-- evaluate_request of guardrails.py: the system messages of a request that is let through.
use llm_sentinel.Prelude.{
  ◌≡◌, refl, sym, ap, ◌∙◌, subst, String, Bool, true, false, not, ◌||◌, List, [], ◌∷◌, ◌++◌, Option,
  none, some, arith, ◌==◌, string_eq, if◌then◌else◌, select, map, All, Bool-cases, inl, inr,
}
use llm_sentinel.Proxy.Tokens.{Message, is_system}
use llm_sentinel.Guardrails.Policy.{Policy, config_of}
use llm_sentinel.Guardrails.Detect.{TextTools}
use llm_sentinel.Guardrails.Models.{Step-cases}
use llm_sentinel.Guardrails.Request.{
  Classifier, Step, continues, redact_message, or_default, react, restrict_model, limit_tokens,
  block_topic, enforce_prompt, detect_injection, detect_jailbreak, by_type, evaluate_policy,
  evaluate_all, same_role, same_messages, result_of, evaluate_request, system_message, passed_on,
  given_or,
}

-- Which messages are system messages.
abbrev pub systems : List Message → List Bool
systems ms = map is_system ms

abbrev is_system_role : Option String → Bool
is_system_role r = elim r [ none ↦ false | some r' ↦ r' == "system" ]

-- The first is a system message and no other is.
abbrev pub OneFirst : List Bool → Type 0
OneFirst [] = ⊥
OneFirst (b ∷ bs) = (b ≡ true) × All (λ c. c ≡ false) bs

-- The types of the policies that add or drop system messages.
abbrev sets_system : Policy → Bool
sets_system p = p.policy_type == "system_prompt_inject" || p.policy_type == "system_prompt_enforce"

systems-select :
    (ms : List Message) → All (λ b. b ≡ false) (systems (select (λ m. not (is_system m)) ms))
systems-select [] = tt
systems-select (m ∷ ms) = elim (Bool-cases (is_system m)) [
  | inl h ↦ ground (arith, h, systems-select ms)
  | inr h ↦ ground (arith, h, systems-select ms)
]

systems-redact :
    (tools : TextTools) (p : Policy) (ms : List Message)
    → systems (map (redact_message tools (config_of p)) ms) ≡ systems ms
systems-redact tools p [] = refl
systems-redact tools p (m ∷ ms) = ap (λ bs. is_system m ∷ bs) (systems-redact tools p ms)

block_topic-systems :
    (tools : TextTools) (p : Policy) (ms ms' : List Message) (applied applied' : List String)
    → block_topic tools p ms applied ≡ continues ms' applied'
    → systems ms' ≡ systems ms
unfolding block_topic
block_topic-systems tools p ms ms' applied applied' h = ground (arith, h, systems-redact tools p ms)

react-systems :
    (threat : Option String) (rejected flagged : String) (p : Policy) (ms ms' : List Message)
    (applied applied' : List String)
    → react threat rejected flagged p ms applied ≡ continues ms' applied'
    → systems ms' ≡ systems ms
react-systems none rejected flagged p ms ms' applied applied' h = ground (arith, h)
react-systems (some text) rejected flagged p ms ms' applied applied' h = ground (arith, h)

restrict_model-systems :
    (tools : TextTools) (model : String) (p : Policy) (ms ms' : List Message)
    (applied applied' : List String)
    → restrict_model tools model p ms applied ≡ continues ms' applied'
    → systems ms' ≡ systems ms
unfolding restrict_model
restrict_model-systems tools model p ms ms' applied applied' h = ground (arith, h)

limit_tokens-systems :
    (p : Policy) (ms ms' : List Message) (applied applied' : List String)
    → limit_tokens p ms applied ≡ continues ms' applied'
    → systems ms' ≡ systems ms
unfolding limit_tokens
limit_tokens-systems p ms ms' applied applied' h = ground (arith, h)

detect_injection-systems :
    (tools : TextTools) (ai : Classifier) (p : Policy) (ms ms' : List Message)
    (applied applied' : List String)
    → detect_injection tools ai p ms applied ≡ continues ms' applied'
    → systems ms' ≡ systems ms
unfolding detect_injection
detect_injection-systems tools ai p ms ms' applied applied' h =
    react-systems _ "prompt_injection_detect" "prompt_injection_flagged" p ms ms' applied applied' h

detect_jailbreak-systems :
    (tools : TextTools) (ai : Classifier) (p : Policy) (ms ms' : List Message)
    (applied applied' : List String)
    → detect_jailbreak tools ai p ms applied ≡ continues ms' applied'
    → systems ms' ≡ systems ms
unfolding detect_jailbreak
detect_jailbreak-systems tools ai p ms ms' applied applied' h =
    react-systems _ "jailbreak_detect" "jailbreak_flagged" p ms ms' applied applied' h

if-holds {ℓ κ} :
    {A : Type ℓ} (P : A → Type κ) (b : Bool) (x y : A)
    → ((b ≡ true) → P x)
    → ((b ≡ false) → P y)
    → P (if b then x else y)
if-holds P true x y h k = h refl
if-holds P false x y h k = k refl

evaluate_policy-systems :
    (tools : TextTools) (ai : Classifier) (model : String) (p : Policy) (ms ms' : List Message)
    (applied applied' : List String)
    → sets_system p ≡ false
    → evaluate_policy tools ai model p ms applied ≡ continues ms' applied'
    → systems ms' ≡ systems ms
unfolding evaluate_policy
evaluate_policy-systems tools ai model p ms ms' applied applied' other =
    let Keeps : Step → Type 0 = λ s. s ≡ continues ms' applied' → systems ms' ≡ systems ms in
    if-holds Keeps (p.policy_type == "system_prompt_inject") _ _
      (λ e. absurd (ground (arith, other, e)))
      (λ _.
        if-holds Keeps (p.policy_type == "system_prompt_enforce") _ _
          (λ e. absurd (ground (arith, other, e)))
          (λ _.
            if-holds Keeps (p.policy_type == "topic_block") _ _
              (λ _. block_topic-systems tools p ms ms' applied applied')
              (λ _.
                if-holds Keeps (p.policy_type == "model_restrict") _ _
                  (λ _. restrict_model-systems tools model p ms ms' applied applied')
                  (λ _.
                    if-holds Keeps (p.policy_type == "max_output_tokens") _ _
                      (λ _. limit_tokens-systems p ms ms' applied applied')
                      (λ _.
                        if-holds Keeps (p.policy_type == "prompt_injection_detect") _ _
                          (λ _. detect_injection-systems tools ai p ms ms' applied applied')
                          (λ _.
                            if-holds Keeps (p.policy_type == "jailbreak_detect") _ _
                              (λ _. detect_jailbreak-systems tools ai p ms ms' applied applied')
                              (λ _ h. ground (arith, h))))))))

same_role-system :
    (r t : Option String) → same_role r t ≡ true → is_system_role r ≡ is_system_role t
same_role-system none none h = refl
same_role-system none (some t) h = absurd (ground (arith, h))
same_role-system (some r) none h = absurd (ground (arith, h))
same_role-system (some r) (some t) h =
    ap (λ x. is_system_role (some x)) ((string_eq.agrees_iff r t).0 h)

same_messages-systems :
    (ms ns : List Message) → same_messages ms ns ≡ true → systems ms ≡ systems ns
same_messages-systems [] [] h = refl
same_messages-systems [] (n ∷ ns) h = absurd (ground (arith, h))
same_messages-systems (m ∷ ms) [] h = absurd (ground (arith, h))
same_messages-systems (m ∷ ms) (n ∷ ns) h =
    ground (arith, h, same_role-system m.role n.role, same_messages-systems ms ns)

evaluate_all-systems :
    (tools : TextTools) (ai : Classifier) (model : String) (ps : List Policy)
    (ms ms' : List Message) (applied applied' : List String)
    → All (λ p. sets_system p ≡ false) ps
    → evaluate_all tools ai model ps ms applied ≡ continues ms' applied'
    → systems ms' ≡ systems ms
unfolding evaluate_all
evaluate_all-systems tools ai model [] ms ms' applied applied' other h = ground (arith, h)
evaluate_all-systems tools ai model (p ∷ ps) ms ms' applied applied' other h =
    elim (Step-cases (evaluate_policy tools ai model p ms applied)) [
      | inl (ms'', applied'', e) ↦
          evaluate_all-systems tools ai model ps ms'' ms' applied'' applied' other.1
            (ground (arith, h, e))
          ∙ evaluate_policy-systems tools ai model p ms ms'' applied applied'' other.0 e
      | inr (reason, applied'', e) ↦ absurd (ground (arith, h, e))
    ]

-- The loop that gets through a list of policies gets through the first part of it.
evaluate_all-append :
    (tools : TextTools) (ai : Classifier) (model : String) (ps qs : List Policy)
    (ms ms' : List Message) (applied applied' : List String)
    → evaluate_all tools ai model (ps ++ qs) ms applied ≡ continues ms' applied'
    → (ms'' : List Message) × (applied'' : List String) × (evaluate_all tools ai model qs ms''
          applied''
        ≡ continues ms' applied')
unfolding evaluate_all
evaluate_all-append tools ai model [] qs ms ms' applied applied' h = (ms, applied, h)
evaluate_all-append tools ai model (p ∷ ps) qs ms ms' applied applied' h =
    elim (Step-cases (evaluate_policy tools ai model p ms applied)) [
      | inl (ms'', applied'', e) ↦
          evaluate_all-append tools ai model ps qs ms'' ms' applied'' applied'
            (ground (arith, h, e))
      | inr (reason, applied'', e) ↦ absurd (ground (arith, h, e))
    ]

-- A policy that enforces a prompt and takes no system message of the client.
abbrev Enforces : Policy → Type 0
Enforces p =
    (p.policy_type ≡ "system_prompt_enforce")
    × ((config_of p).allow_client_system ≡ false)
    × (or_default "" (config_of p).prompt == "" ≡ false)

enforced-OneFirst :
    (allow_client unset : Bool) (prompt : String) (ms : List Message)
    → allow_client ≡ false
    → unset ≡ false
    → OneFirst (
        systems (
          if unset
          then (if allow_client then ms else select (λ m. not (is_system m)) ms)
          else system_message prompt
            ∷ (if allow_client then ms else select (λ m. not (is_system m)) ms)))
enforced-OneFirst true unset prompt ms h k = absurd (ground (arith, h))
enforced-OneFirst false true prompt ms h k = absurd (ground (arith, k))
enforced-OneFirst false false prompt ms h k = (refl, systems-select ms)

continues-messages :
    (ms ns : List Message) (applied applied' : List String)
    → continues ms applied ≡ continues ns applied'
    → ms ≡ ns
continues-messages ms ns applied applied' h = ground (arith, h)

enforce_prompt-OneFirst :
    (p : Policy) (ms ms' : List Message) (applied applied' : List String)
    → (config_of p).allow_client_system ≡ false
    → (or_default "" (config_of p).prompt == "") ≡ false
    → enforce_prompt p ms applied ≡ continues ms' applied'
    → OneFirst (systems ms')
unfolding enforce_prompt
enforce_prompt-OneFirst p ms ms' applied applied' no_client given h =
    let prompt = or_default "" (config_of p).prompt in
    subst (λ ns. OneFirst (systems ns)) (continues-messages _ ms' _ applied' h)
      (enforced-OneFirst (config_of p).allow_client_system (prompt == "") prompt ms no_client given)

evaluate_all-OneFirst :
    (tools : TextTools) (ai : Classifier) (model : String) (p : Policy) (qs : List Policy)
    (ms ms' : List Message) (applied applied' : List String)
    → Enforces p
    → All (λ q. sets_system q ≡ false) qs
    → evaluate_all tools ai model (p ∷ qs) ms applied ≡ continues ms' applied'
    → OneFirst (systems ms')
unfolding evaluate_all evaluate_policy
evaluate_all-OneFirst tools ai model p qs ms ms' applied applied' enforcing other h =
    elim (Step-cases (evaluate_policy tools ai model p ms applied)) [
      | inl (ms'', applied'', e) ↦
          subst OneFirst
            (sym (
              evaluate_all-systems tools ai model qs ms'' ms' applied'' applied' other
                (ground (arith, h, e))))
            (enforce_prompt-OneFirst p ms ms'' applied applied'' enforcing.1 enforcing.2
              (ap (λ type. by_type type tools ai model p ms applied) (sym enforcing.0) ∙ e))
      | inr (reason, applied'', e) ↦ absurd (ground (arith, h, e))
    ]

-- What the gateway passes on is what the policies made of the messages, or the same.
passed_on-OneFirst :
    (ms ms' : List Message) (applied : List String)
    → OneFirst (systems ms')
    → OneFirst (systems (passed_on (result_of ms (continues ms' applied)) ms))
unfolding result_of
passed_on-OneFirst ms [] applied h = absurd h
passed_on-OneFirst ms (m ∷ ms') applied h =
    if-holds (λ given. OneFirst (systems (given_or ms given))) (same_messages (m ∷ ms') ms) none
      (some (m ∷ ms')) (λ same. subst OneFirst (same_messages-systems (m ∷ ms') ms same) h) (λ _. h)

-- Where a policy enforces a prompt, which is given, and takes no system message of the client, and
-- none of the policies behind it adds or drops system messages, a request that is let through goes
-- on with one system message in front and no other, whatever the client and the policies before it
-- have put there.
pub evaluate_request-enforced :
    (tools : TextTools) (ai : Classifier) (ps : List Policy) (p : Policy) (qs : List Policy)
    (model : String) (ms : List Message)
    → Enforces p
    → All (λ q. sets_system q ≡ false) qs
    → (evaluate_request tools ai (ps ++ (p ∷ qs)) model ms).allowed ≡ true
    → OneFirst (systems (passed_on (evaluate_request tools ai (ps ++ (p ∷ qs)) model ms) ms))
unfolding evaluate_request result_of
evaluate_request-enforced tools ai ps p qs model ms enforcing other h =
    elim (Step-cases (evaluate_all tools ai model (ps ++ (p ∷ qs)) ms [])) [
      | inl (ms', applied', e) ↦
          subst (λ step. OneFirst (systems (passed_on (result_of ms step) ms))) (sym e)
            (passed_on-OneFirst ms ms' applied' (
              let (ms'', applied'', e') =
                evaluate_all-append tools ai model ps (p ∷ qs) ms ms' [] applied' e in
              evaluate_all-OneFirst tools ai model p qs ms'' ms' applied'' applied' enforcing other
                e'))
      | inr (reason, applied', e) ↦ absurd (ground (arith, h, e))
    ]
