-- ===== src/Clients/Rates.antt =====
-- get_cost_rate and the seeding of rates of cost_tracker.py. A rate is kept as the texts of its two
-- prices.
use Prim.Native.String.{◌++◌ as append}
use llm_sentinel.Prelude.{
  ℕ, ◌+◌, String, Bool, true, false, ◌&&◌, List, [], ◌∷◌, ◌++◌, Option, none, some, ◌==◌, string_eq,
}
use llm_sentinel.Auth.State.{first_where, update_first}

pub record CostRate : Type 0 where
  pub id : String
  pub provider : String
  pub model : String
  pub input_cost_per_1k : String
  pub output_cost_per_1k : String
  pub is_active : Bool

-- An entry of BUILTIN_RATES, whose id the database makes.
abbrev rate : String → String → String → String → CostRate
rate provider model input output = record {
  id = append provider (append "/" model);
  provider = provider;
  model = model;
  input_cost_per_1k = input;
  output_cost_per_1k = output;
  is_active = true;
}

abbrev builtin_rates : List CostRate
builtin_rates =
    rate "anthropic" "claude-opus-4-6" "0.015" "0.075"
    ∷ rate "anthropic" "claude-sonnet-4-6" "0.003" "0.015"
    ∷ rate "anthropic" "claude-haiku-4-5-20251001" "0.00025" "0.00125"
    ∷ rate "openai" "gpt-4o" "0.0025" "0.01"
    ∷ rate "openai" "gpt-4o-mini" "0.00015" "0.0006"
    ∷ rate "openai" "gpt-4-turbo" "0.01" "0.03"
    ∷ rate "openai" "gpt-3.5-turbo" "0.0005" "0.0015"
    ∷ rate "gemini" "gemini-1.5-pro" "0.00125" "0.005"
    ∷ rate "gemini" "gemini-1.5-flash" "0.000075" "0.0003"
    ∷ rate "ollama" "*" "0.0" "0.0"
    ∷ []

abbrev is_for : String → String → CostRate → Bool
is_for provider model r = r.provider == provider && r.model == model

-- The loop over the built-in rates, of which those that are in the table are passed over.
unfoldable seed_cost_rates : List CostRate → ℕ → List CostRate → ℕ × List CostRate
seed_cost_rates [] count table = (count, table)
seed_cost_rates (r ∷ rs) count table = elim (first_where (is_for r.provider r.model) table) [
  | some found ↦ seed_cost_rates rs count table
  | none ↦ seed_cost_rates rs (count + 1) (table ++ (r ∷ []))
]

abbrev is_active_for : String → String → CostRate → Bool
is_active_for provider model r = is_for provider model r && r.is_active

-- The exact row first, and then the wildcard.
unfoldable get_cost_rate : String → String → List CostRate → Option CostRate
get_cost_rate provider model table = elim (first_where (is_active_for provider model) table) [
  | some row ↦ some row
  | none ↦ first_where (is_active_for provider "*") table
]

abbrev has_rate_id : String → CostRate → Bool
has_rate_id rate_id r = r.id == rate_id

unfoldable deactivate_rate : String → List CostRate → Bool × List CostRate
deactivate_rate rate_id table = elim (first_where (has_rate_id rate_id) table) [
  | none ↦ (false, table)
  | some row ↦
      (true, update_first (has_rate_id rate_id) (λ r. record r { is_active = false }) table)
]
