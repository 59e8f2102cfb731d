-- ===== src/Guardrails/Response.antt =====
-- evaluate_response of guardrails.py.
use llm_sentinel.Prelude.{
  String, Bool, true, false, List, [], ◌∷◌, none, some, ltb, ◌==◌, string_eq, if◌then◌else◌,
}
use llm_sentinel.Prelude.Text.{has_part}
use llm_sentinel.Guardrails.Tables.{pii_patterns}
use llm_sentinel.Guardrails.Policy.{Config, Policy, config_of}
use llm_sentinel.Guardrails.Detect.{TextTools, check_data_leakage}
use llm_sentinel.Guardrails.Request.{or_default}

-- A policy returns at once, or the loop goes on with the text and `was_filtered`.
pub data Filtering : Type 0 where
  goes_on : String → Bool → Filtering
  returns : String → Filtering

unfoldable pub mask_pii : TextTools → List (String × String) → String → Bool → String × Bool
mask_pii tools [] text was_filtered = (text, was_filtered)
mask_pii tools ((pattern, replacement) ∷ patterns) text was_filtered =
    let (new_text, count) = tools.subn pattern replacement text in
    mask_pii tools patterns (if ltb 0 count then new_text else text)
      (if ltb 0 count then true else was_filtered)

unfoldable pub mask_profanity : TextTools → List String → String → Bool → String × Bool
mask_profanity tools [] text was_filtered = (text, was_filtered)
mask_profanity tools (word ∷ words) text was_filtered =
    let found = has_part (tools.lower word) (tools.lower text) in
    let new_text : String = elim (tools.sub true (tools.escape word) "[FILTERED]" text) [
      | none ↦ text
      | some t ↦ t
    ] in
    mask_profanity tools words (if found then new_text else text)
      (if found then true else was_filtered)

unfoldable pub prevent_leak : TextTools → Config → String → Bool → Filtering
prevent_leak tools c text was_filtered =
    let (filtered_text, detections) = check_data_leakage tools text in
    elim detections [
      | [] ↦ goes_on text was_filtered
      | d ∷ ds ↦
          if or_default "redact" c.action == "block"
          then returns "[Response blocked: sensitive data detected]"
          else goes_on filtered_text true
    ]

unfoldable pub filter_output : TextTools → Config → String → Bool → Filtering
unfolding mask_pii mask_profanity
filter_output tools c text was_filtered =
    let (text1, filtered1) =
      if c.check_pii then mask_pii tools pii_patterns text was_filtered else (text, was_filtered) in
    let (text2, filtered2) =
      if c.check_profanity
      then mask_profanity tools c.profanity_list text1 filtered1
      else (text1, filtered1) in
    goes_on text2 filtered2

unfoldable pub filter_policy : TextTools → Policy → String → Bool → Filtering
unfolding prevent_leak filter_output
filter_policy tools p text was_filtered =
    if p.policy_type == "data_leakage_prevent"
    then prevent_leak tools (config_of p) text was_filtered
    else if p.policy_type == "output_filter"
    then filter_output tools (config_of p) text was_filtered
    else goes_on text was_filtered

-- The loop, with what has been filtered so far.
unfoldable pub filter_all : TextTools → List Policy → String → Bool → String × Bool
unfolding filter_policy
filter_all tools [] text was_filtered = (text, was_filtered)
filter_all tools (p ∷ ps) text was_filtered = elim (filter_policy tools p text was_filtered) [
  | goes_on text' filtered' ↦ filter_all tools ps text' filtered'
  | returns blocked ↦ (blocked, true)
]

unfoldable pub evaluate_response : TextTools → List Policy → String → String × Bool
unfolding filter_all
evaluate_response tools policies text = filter_all tools policies text false
