-- ===== src/Guardrails/Request.antt =====
-- evaluate_request of guardrails.py. The answers of the guard model, `_ai_classify_threat`, are an
-- argument.
use Prim.Native.String.{◌++◌ as append}
use llm_sentinel.Prelude.{
  ℕ, String, Bool, true, false, not, ◌&&◌, ◌||◌, List, [], ◌∷◌, ◌++◌, Option, none, some, leb, ◌==◌,
  string_eq, nat_beq, if◌then◌else◌, length, select, map,
}
use llm_sentinel.Prelude.Text.{str, has_part, join}
use llm_sentinel.Proxy.Tokens.{
  Part, text_part, other_part, Content, plain_text, part_list, other_value, Message, is_system,
}
use llm_sentinel.Guardrails.Policy.{Config, Policy, config_of}
use llm_sentinel.Guardrails.Detect.{
  TextTools, matches, any, check_prompt_injection, check_jailbreak,
}

abbrev pub or_default {ℓ} : {A : Type ℓ} → A → Option A → A
or_default default none = default
or_default default (some a) = a

-- What the guard model says of a text: whether it is a threat, of which type, and why.
pub record AiResult : Type 0 where
  pub threat : Bool
  pub kind : String
  pub reason : String

abbrev pub Classifier : Type 0
Classifier = Config → String → AiResult

-- A policy lets the evaluation go on, with the messages and the applied policies so far, or ends it.
pub data Step : Type 0 where
  continues : List Message → List String → Step
  rejects : String → List String → Step

abbrev pub system_message : String → Message
system_message prompt = record { role = some "system"; content = plain_text prompt }

-- `m.get("role") == "system" and m.get("content") == prompt`
abbrev pub is_prompt : String → Message → Bool
is_prompt prompt m = elim m.content [ plain_text t ↦ is_system m && t == prompt | _ ↦ false ]

-- The contents that are texts; a message without one has the empty text.
abbrev texts_of : List Message → List String
texts_of [] = []
texts_of (m ∷ ms) = elim m.content [ plain_text t ↦ t ∷ texts_of ms | _ ↦ texts_of ms ]

abbrev pub all_text : List Message → String
all_text ms = join " " (texts_of ms)

abbrev tag : String → Policy → String
tag kind p = append kind (append ":" p.name)

unfoldable pub inject_prompt : Policy → List Message → List String → Step
inject_prompt p modified applied =
    let prompt : String = or_default "" (config_of p).prompt in
    if prompt == ""
    then continues modified applied
    else continues (system_message prompt ∷ select (λ m. not (is_prompt prompt m)) modified)
        (applied ++ (tag "system_prompt_inject" p ∷ []))

unfoldable pub enforce_prompt : Policy → List Message → List String → Step
enforce_prompt p modified applied =
    let prompt : String = or_default "" (config_of p).prompt in
    let kept =
      if (config_of p).allow_client_system
      then modified
      else select (λ m. not (is_system m)) modified in
    continues (if prompt == "" then kept else system_message prompt ∷ kept)
      (applied ++ (tag "system_prompt_enforce" p ∷ []))

-- The two loops that set `blocked`.
abbrev is_blocked : TextTools → Config → String → Bool
is_blocked tools c text =
    any (λ kw. has_part (tools.lower kw) text) c.blocked_keywords
    || any (λ pat. matches tools true pat text) c.blocked_patterns

-- `re.sub` of each pattern by "[BLOCKED]"; one that is refused is passed over.
unfoldable pub block_all : TextTools → List String → String → String
block_all tools [] content = content
block_all tools (pat ∷ pats) content =
    block_all tools pats
      (elim (tools.sub true pat "[BLOCKED]" content) [ none ↦ content | some t ↦ t ])

abbrev redact_content : TextTools → Config → Content → Content
redact_content tools c (plain_text t) =
    plain_text
      (block_all tools c.blocked_patterns (block_all tools (map tools.escape c.blocked_keywords) t))
redact_content tools c other = other

abbrev pub redact_message : TextTools → Config → Message → Message
redact_message tools c m = record m { content = redact_content tools c m.content }

unfoldable pub block_topic : TextTools → Policy → List Message → List String → Step
unfolding block_all
block_topic tools p modified applied =
    let c = config_of p in
    let action : String = or_default "reject" c.action in
    if is_blocked tools c (tools.lower (all_text modified))
    then (if action == "reject"
        then rejects (or_default "This topic is blocked by policy." c.message)
            (applied ++ (tag "topic_block" p ∷ []))
        else if action == "redact"
        then continues (map (redact_message tools c) modified)
            (applied ++ (tag "topic_block_redact" p ∷ []))
        else continues modified applied)
    else continues modified applied

unfoldable pub restrict_model : TextTools → String → Policy → List Message → List String → Step
restrict_model tools model p modified applied = elim (config_of p).allowed_models [
  | [] ↦ continues modified applied
  | pat ∷ pats ↦
      if any (tools.fnmatch model) (pat ∷ pats)
      then continues modified applied
      else rejects (or_default "Model not allowed by policy." (config_of p).deny_message)
          (applied ++ (tag "model_restrict" p ∷ []))
]

unfoldable pub limit_tokens : Policy → List Message → List String → Step
limit_tokens p modified applied = elim (config_of p).max_tokens [
  | none ↦ continues modified applied
  | some n ↦
      if nat_beq n 0
      then continues modified applied
      else continues modified
          (applied ++ (append (tag "max_output_tokens" p) (append ":" (str n)) ∷ []))
]

-- `{"low": 3, "medium": 1, "high": 1}.get(sensitivity, 1)`
abbrev min_detections : Config → ℕ
min_detections c = if or_default "medium" c.sensitivity == "low" then 3 else 1

-- The regex check, and then the guard model where the first has not caught a threat: none, or the
-- message of the rejection.
abbrev detect_threat : Bool → AiResult → String → String → String → Config → Option String
detect_threat caught ai kind default ai_default c =
    let mode : String = or_default "regex" c.mode in
    if (mode == "regex" || mode == "both") && caught
    then some (or_default default c.message)
    else if (mode == "ai" || mode == "both") && ai.threat && ai.kind == kind
    then some (or_default (append ai_default ai.reason) c.message)
    else none

-- What a detector does about a threat.
abbrev pub react : Option String → String → String → Policy → List Message → List String → Step
react none rejected flagged p modified applied = continues modified applied
react (some text) rejected flagged p modified applied =
    let action : String = or_default "reject" (config_of p).action in
    if action == "reject"
    then rejects text (applied ++ (tag rejected p ∷ []))
    else if action == "flag"
    then continues modified (applied ++ (tag flagged p ∷ []))
    else continues modified applied

unfoldable pub detect_injection :
    TextTools → Classifier → Policy → List Message → List String → Step
detect_injection tools ai p modified applied =
    let c = config_of p in
    let text : String = all_text modified in
    react
      (detect_threat (leb (min_detections c) (length (check_prompt_injection tools text)))
        (ai c text) "injection" "Prompt injection detected and blocked."
        "Prompt injection blocked: " c)
      "prompt_injection_detect" "prompt_injection_flagged" p modified applied

unfoldable pub detect_jailbreak :
    TextTools → Classifier → Policy → List Message → List String → Step
detect_jailbreak tools ai p modified applied =
    let c = config_of p in
    let text : String = all_text modified in
    react
      (detect_threat (leb 1 (length (check_jailbreak tools text))) (ai c text) "jailbreak"
        "Jailbreak attempt detected and blocked." "Jailbreak blocked: " c)
      "jailbreak_detect" "jailbreak_flagged" p modified applied

-- The branches on the type of the policy; one of any other type is passed over.
abbrev pub by_type :
    String → TextTools → Classifier → String → Policy → List Message → List String → Step
by_type policy_type tools ai model p modified applied =
    if policy_type == "system_prompt_inject"
    then inject_prompt p modified applied
    else if policy_type == "system_prompt_enforce"
    then enforce_prompt p modified applied
    else if policy_type == "topic_block"
    then block_topic tools p modified applied
    else if policy_type == "model_restrict"
    then restrict_model tools model p modified applied
    else if policy_type == "max_output_tokens"
    then limit_tokens p modified applied
    else if policy_type == "prompt_injection_detect"
    then detect_injection tools ai p modified applied
    else if policy_type == "jailbreak_detect"
    then detect_jailbreak tools ai p modified applied
    else continues modified applied

-- The body of the loop.
unfoldable pub evaluate_policy :
    TextTools → Classifier → String → Policy → List Message → List String → Step
evaluate_policy tools ai model p modified applied =
    by_type p.policy_type tools ai model p modified applied

-- The loop over the policies.
unfoldable pub evaluate_all :
    TextTools → Classifier → String → List Policy → List Message → List String → Step
evaluate_all tools ai model [] modified applied = continues modified applied
evaluate_all tools ai model (p ∷ ps) modified applied =
    elim (evaluate_policy tools ai model p modified applied) [
      | continues modified' applied' ↦ evaluate_all tools ai model ps modified' applied'
      | rejects reason applied' ↦ rejects reason applied'
    ]

-- PolicyEvaluationResult.
pub record Evaluation : Type 0 where
  pub allowed : Bool
  pub applied_policies : List String
  pub modified_messages : Option (List Message)
  pub reject_reason : Option String

abbrev same_part : Part → Part → Bool
same_part (text_part s) (text_part t) = s == t
same_part other_part other_part = true
same_part _ _ = false

abbrev same_parts : List Part → List Part → Bool
same_parts [] [] = true
same_parts (p ∷ ps) (q ∷ qs) = same_part p q && same_parts ps qs
same_parts _ _ = false

abbrev same_content : Content → Content → Bool
same_content (plain_text s) (plain_text t) = s == t
same_content (part_list ps) (part_list qs) = same_parts ps qs
same_content other_value other_value = true
same_content _ _ = false

abbrev pub same_role : Option String → Option String → Bool
same_role none none = true
same_role (some s) (some t) = s == t
same_role _ _ = false

-- `modified == messages`, on what the model keeps of a message.
abbrev pub same_messages : List Message → List Message → Bool
same_messages [] [] = true
same_messages (m ∷ ms) (n ∷ ns) =
    same_role m.role n.role && same_content m.content n.content && same_messages ms ns
same_messages _ _ = false

unfoldable pub result_of : List Message → Step → Evaluation
result_of messages (continues modified applied) = record {
  allowed = true;
  applied_policies = applied;
  modified_messages = if same_messages modified messages then none else some modified;
  reject_reason = none;
}
result_of messages (rejects reason applied) = record {
  allowed = false;
  applied_policies = applied;
  modified_messages = none;
  reject_reason = some reason;
}

unfoldable pub evaluate_request :
    TextTools → Classifier → List Policy → String → List Message → Evaluation
unfolding result_of evaluate_all
evaluate_request tools ai policies model messages =
    result_of messages (evaluate_all tools ai model policies messages [])

-- An empty list counts as none, since `if guard_result.modified_messages` tests it.
abbrev pub given_or : List Message → Option (List Message) → List Message
given_or messages none = messages
given_or messages (some []) = messages
given_or messages (some (m ∷ ms)) = m ∷ ms

-- The messages that `_handle_chat` of main.py goes on with.
abbrev pub passed_on : Evaluation → List Message → List Message
passed_on result messages = given_or messages result.modified_messages
