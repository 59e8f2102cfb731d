-- ===== src/Guardrails/Filtered.antt =====
-- evaluate_response of guardrails.py: the text and the mark of a change.
use llm_sentinel.Prelude.{
  ◌≡◌, refl, sym, ap, ◌∙◌, String, Bool, true, false, List, [], ◌∷◌, none, some, arith, ltb,
  string_eq, if◌then◌else◌, Bool-cases, inl, inr,
}
use llm_sentinel.Prelude.Text.{has_part}
use llm_sentinel.Guardrails.Tables.{pii_patterns}
use llm_sentinel.Guardrails.Policy.{Config, Policy, config_of}
use llm_sentinel.Guardrails.Detect.{TextTools}
use llm_sentinel.Guardrails.Response.{
  Filtering, goes_on, returns, mask_pii, mask_profanity, prevent_leak, filter_output, filter_policy,
  filter_all, evaluate_response,
}

-- What is marked as filtered stays so, and what is not marked is the text as it came.
abbrev Unmarked : String → Bool → String × Bool → Type 0
Unmarked text was p = (p.1 ≡ false) → (was ≡ false) × (p.0 ≡ text)

mask_pii-Unmarked :
    (tools : TextTools) (patterns : List (String × String)) (text : String) (was : Bool)
    → Unmarked text was (mask_pii tools patterns text was)
unfolding mask_pii
mask_pii-Unmarked tools [] text was h = (h, refl)
mask_pii-Unmarked tools ((pattern, replacement) ∷ patterns) text was h =
    let (new_text, count) = tools.subn pattern replacement text in
    let rest =
      mask_pii-Unmarked tools patterns (if ltb 0 count then new_text else text)
        (if ltb 0 count then true else was) h in
    ground (arith, rest)

mask_profanity-Unmarked :
    (tools : TextTools) (words : List String) (text : String) (was : Bool)
    → Unmarked text was (mask_profanity tools words text was)
unfolding mask_profanity
mask_profanity-Unmarked tools [] text was h = (h, refl)
mask_profanity-Unmarked tools (word ∷ words) text was h =
    let found = has_part (tools.lower word) (tools.lower text) in
    let new_text : String = elim (tools.sub true (tools.escape word) "[FILTERED]" text) [
      | none ↦ text
      | some t ↦ t
    ] in
    let rest =
      mask_profanity-Unmarked tools words (if found then new_text else text)
        (if found then true else was) h in
    elim (Bool-cases found) [
      | inl h1 ↦ ground (arith, rest, h1)
      | inr h1 ↦ ground (arith, rest, h1)
    ]

prevent_leak-Unmarked :
    (tools : TextTools) (c : Config) (text : String) (was : Bool) (text' : String)
    → prevent_leak tools c text was ≡ goes_on text' false
    → (was ≡ false) × (text' ≡ text)
unfolding prevent_leak
prevent_leak-Unmarked tools c text was text' h = ground arith

Unmarked-if :
    (b : Bool) (text : String) (was : Bool) (p : String × Bool)
    → Unmarked text was p
    → Unmarked text was (if b then p else (text, was))
Unmarked-if true text was p h = h
Unmarked-if false text was p h = λ e. (e, refl)

Unmarked-join :
    (text : String) (was : Bool) (p q : String × Bool)
    → Unmarked text was p
    → Unmarked p.0 p.1 q
    → Unmarked text was q
Unmarked-join text was p q h k e =
    let later = k e in let first = h later.0 in (first.0, later.1 ∙ first.1)

goes_on-pair :
    (p : String × Bool) (text : String)
    → goes_on p.0 p.1 ≡ goes_on text false
    → (p.0 ≡ text) × (p.1 ≡ false)
goes_on-pair p text h = ground (arith, h)

filter_output-Unmarked :
    (tools : TextTools) (c : Config) (text : String) (was : Bool) (text' : String)
    → filter_output tools c text was ≡ goes_on text' false
    → (was ≡ false) × (text' ≡ text)
unfolding filter_output
filter_output-Unmarked tools c text was text' h =
    let first : String × Bool =
      if c.check_pii then mask_pii tools pii_patterns text was else (text, was) in
    let second : String × Bool =
      if c.check_profanity then mask_profanity tools c.profanity_list first.0 first.1 else first in
    let ends = goes_on-pair second text' h in
    let none_marked =
      Unmarked-join text was first second
        (Unmarked-if c.check_pii text was (mask_pii tools pii_patterns text was)
          (mask_pii-Unmarked tools pii_patterns text was))
        (Unmarked-if c.check_profanity first.0 first.1
          (mask_profanity tools c.profanity_list first.0 first.1)
          (mask_profanity-Unmarked tools c.profanity_list first.0 first.1))
        ends.1 in
    (none_marked.0, sym ends.0 ∙ none_marked.1)

filter_policy-Unmarked :
    (tools : TextTools) (p : Policy) (text : String) (was : Bool) (text' : String)
    → filter_policy tools p text was ≡ goes_on text' false
    → (was ≡ false) × (text' ≡ text)
unfolding filter_policy
filter_policy-Unmarked tools p text was text' h =
    let leak = prevent_leak-Unmarked tools (config_of p) text was text' in
    let output = filter_output-Unmarked tools (config_of p) text was text' in
    ground (arith, leak, output, h)

-- One step of the loop, where the rest of the loop keeps to `Unmarked`.
step-Unmarked :
    (tools : TextTools) (p : Policy) (ps : List Policy)
    → ((t : String) (w : Bool) → Unmarked t w (filter_all tools ps t w))
    → (text : String) (was : Bool) (step : Filtering) → filter_policy tools p text was ≡ step
    → Unmarked text was (elim step [
      | goes_on text' filtered' ↦ filter_all tools ps text' filtered'
      | returns blocked ↦ (blocked, true)
    ])
step-Unmarked tools p ps rest text was (goes_on text' filtered') e h =
    let later = rest text' filtered' h in
    let now = filter_policy-Unmarked tools p text was text' (e ∙ ap (goes_on text') later.0) in
    (now.0, later.1 ∙ now.1)
step-Unmarked tools p ps rest text was (returns blocked) e h = absurd (ground (arith, h))

filter_all-Unmarked :
    (tools : TextTools) (ps : List Policy) (text : String) (was : Bool)
    → Unmarked text was (filter_all tools ps text was)
unfolding filter_all
filter_all-Unmarked tools [] text was = λ h. (h, refl)
filter_all-Unmarked tools (p ∷ ps) text was =
    step-Unmarked tools p ps (filter_all-Unmarked tools ps) text was
      (filter_policy tools p text was) refl

-- A response that the output policies do not mark as filtered is the text as it came.
evaluate_response-unmarked :
    (tools : TextTools) (policies : List Policy) (text : String)
    → (evaluate_response tools policies text).1 ≡ false
    → (evaluate_response tools policies text).0 ≡ text
unfolding evaluate_response
evaluate_response-unmarked tools policies text h =
    (filter_all-Unmarked tools policies text false h).1
