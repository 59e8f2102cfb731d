-- ===== src/Guardrails/Models.antt =====
-- evaluate_request of guardrails.py: the model of a request that is let through.
use llm_sentinel.Prelude.{
  Bool, ◌==◌, string_eq, if◌then◌else◌, Bool-cases, ◌≡◌, ◌⊎◌, refl, sym, ap, ◌∙◌, String, true,
  List, [], ◌∷◌, arith, string_eq, All, inl, inr,
}
use llm_sentinel.Proxy.Tokens.{Message}
use llm_sentinel.Guardrails.Policy.{Policy, config_of}
use llm_sentinel.Guardrails.Detect.{TextTools, any}
use llm_sentinel.Guardrails.Request.{
  Classifier, Step, continues, rejects, restrict_model, by_type, evaluate_policy, evaluate_all,
  result_of, evaluate_request,
}

-- A restriction to some models lets this one through.
abbrev permits : TextTools → String → Policy → Bool
permits tools model p =
    if p.policy_type == "model_restrict"
    then (elim (config_of p).allowed_models [
      | [] ↦ true
      | pat ∷ pats ↦ any (tools.fnmatch model) (pat ∷ pats)
    ])
    else true

abbrev pub Permitted : TextTools → String → List Policy → Type 0
Permitted tools model = All (λ p. permits tools model p ≡ true)

pub Step-cases :
    (s : Step)
    → ((ms : List Message) × (applied : List String) × (s ≡ continues ms applied))
      ⊎ ((reason : String) × (applied : List String) × (s ≡ rejects reason applied))
Step-cases (continues ms applied) = inl (ms, applied, refl)
Step-cases (rejects reason applied) = inr (reason, applied, refl)

List-cases {ℓ} : {A : Type ℓ} (xs : List A) → (xs ≡ []) ⊎ ((x : A) × (ys : List A) × (xs ≡ x ∷ ys))
List-cases [] = inl refl
List-cases (x ∷ xs) = inr (x, xs, refl)

restrict_model-allows :
    (tools : TextTools) (model : String) (p : Policy) (ms ms' : List Message)
    (applied applied' : List String)
    → restrict_model tools model p ms applied ≡ continues ms' applied'
    → (elim (config_of p).allowed_models [
      | [] ↦ true
      | pat ∷ pats ↦ any (tools.fnmatch model) (pat ∷ pats)
    ])
      ≡ true
unfolding restrict_model
restrict_model-allows tools model p ms ms' applied applied' h =
    elim (List-cases (config_of p).allowed_models) [
      | inl empty ↦ rw empty refl
      | inr (pat, pats, e) ↦ ground (arith, h, e)
    ]

evaluate_policy-permits :
    (tools : TextTools) (ai : Classifier) (model : String) (p : Policy) (ms ms' : List Message)
    (applied applied' : List String)
    → evaluate_policy tools ai model p ms applied ≡ continues ms' applied'
    → permits tools model p ≡ true
unfolding evaluate_policy
evaluate_policy-permits tools ai model p ms ms' applied applied' h =
    elim (Bool-cases (p.policy_type == "model_restrict")) [
      | inl is ↦
          let type = (string_eq.agrees_iff p.policy_type "model_restrict").0 is in
          rw is (
            restrict_model-allows tools model p ms ms' applied applied'
              (ap (λ type. by_type type tools ai model p ms applied) (sym type) ∙ h))
      | inr other ↦ rw other refl
    ]

evaluate_all-Permitted :
    (tools : TextTools) (ai : Classifier) (model : String) (ps : List Policy)
    (ms ms' : List Message) (applied applied' : List String)
    → evaluate_all tools ai model ps ms applied ≡ continues ms' applied'
    → Permitted tools model ps
unfolding evaluate_all
evaluate_all-Permitted tools ai model [] ms ms' applied applied' h = tt
evaluate_all-Permitted tools ai model (p ∷ ps) ms ms' applied applied' h =
    elim (Step-cases (evaluate_policy tools ai model p ms applied)) [
      | inl (ms'', applied'', e) ↦ (
        evaluate_policy-permits tools ai model p ms ms'' applied applied'' e,
        evaluate_all-Permitted tools ai model ps ms'' ms' applied'' applied' (ground (arith, h, e)),
      )
      | inr (reason, applied'', e) ↦ absurd (ground (arith, h, e))
    ]

-- A request that is let through asks for a model that one of the patterns of each restriction
-- among the policies fits, where that has any.
pub evaluate_request-Permitted :
    (tools : TextTools) (ai : Classifier) (ps : List Policy) (model : String) (ms : List Message)
    → (evaluate_request tools ai ps model ms).allowed ≡ true
    → Permitted tools model ps
unfolding evaluate_request result_of
evaluate_request-Permitted tools ai ps model ms h =
    elim (Step-cases (evaluate_all tools ai model ps ms [])) [
      | inl (ms', applied', e) ↦ evaluate_all-Permitted tools ai model ps ms ms' [] applied' e
      | inr (reason, applied', e) ↦ absurd (ground (arith, h, e))
    ]
