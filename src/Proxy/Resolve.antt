-- ===== src/Proxy/Resolve.antt =====
-- resolve_model of llm_proxy.py with its helpers. `lower` stands for `str.lower`, and the model
-- names that it is applied to are arguments; `none` for the rows is a lookup that raised.
use Prim.Native.String.{String}
use text.Mathlib.Text.{starts_with}
use llm_sentinel.Prelude.{
  ◌≡◌, Bool, ◌&&◌, ◌||◌, List, [], ◌∷◌, Option, none, some, arith, ◌==◌, string_eq, if◌then◌else◌,
}
use llm_sentinel.Prelude.Text.{has_part}

-- A row of ModelAliasDB.
pub record ModelAlias : Type 0 where
  pub alias : String
  pub provider : String
  pub model : String
  pub is_active : Bool

-- A hint that Python takes for true: given, and not empty.
abbrev hint : Option String → Option String
hint none = none
hint (some s) = if s == "" then none else some s

-- `scalars().first()` of the active rows with the alias.
unfoldable pub find_alias : String → List ModelAlias → Option ModelAlias
find_alias name [] = none
find_alias name (a ∷ rows) = if a.alias == name && a.is_active then some a else find_alias name rows

-- `fallback_chain_list[0]`, or "anthropic" where the list is empty.
abbrev first_fallback : List String → String
first_fallback [] = "anthropic"
first_fallback (p ∷ ps) = p

-- `_infer_provider` on the lower-case name.
unfoldable pub infer_provider : List String → String → String
infer_provider chain m =
    if has_part "claude" m || starts_with m "anthropic"
    then "anthropic"
    else if starts_with m "gpt-" || starts_with m "o1" || starts_with m "o3"
    then "openai"
    else if has_part "gemini" m
    then "gemini"
    else if has_part "llama" m || has_part "mixtral" m
    then "groq"
    else if has_part "mistral" m || has_part "codestral" m
    then "mistral"
    else if has_part "bedrock" m || starts_with m "anthropic."
    then "bedrock"
    else first_fallback chain

unfoldable pub default_model : String → String
default_model provider =
    if provider == "anthropic"
    then "claude-sonnet-4-6"
    else if provider == "openai"
    then "gpt-4o"
    else if provider == "azure_openai"
    then "gpt-4o"
    else if provider == "gemini"
    then "gemini-1.5-pro"
    else if provider == "groq"
    then "llama-3.3-70b-versatile"
    else if provider == "mistral"
    then "mistral-large-latest"
    else if provider == "ollama"
    then "llama3"
    else if provider == "bedrock"
    then "anthropic.claude-3-5-sonnet-20241022-v2:0"
    else "default"

pub record Resolved : Type 0 where
  pub provider : String
  pub model : String
  pub alias_used : Option String

-- The last two lines of `resolve_model`. Python reads the first of them as
-- `(provider_hint or chain[0]) if chain else "anthropic"`.
unfoldable pick : List String → Option String → Option String → Option String → Resolved
pick chain provider_hint model_hint alias_used =
    let provider : String = elim chain [
      | [] ↦ "anthropic"
      | first ∷ _ ↦ elim (hint provider_hint) [ none ↦ first | some p ↦ p ]
    ] in
    record {
      provider = provider;
      model = elim (hint model_hint) [ none ↦ default_model provider | some m ↦ m ];
      alias_used = alias_used;
    }

-- The provider that is inferred where there is a model and no provider.
unfoldable with_inferred :
    (String → String) → List String → Option String → Option String → Option String
with_inferred lower chain provider_hint model_hint = elim (hint provider_hint) [
  | some p ↦ some p
  | none ↦ elim (hint model_hint) [
    | none ↦ provider_hint
    | some m ↦ some (infer_provider chain (lower m))
  ]
]

unfoldable pub resolve_model :
    (String → String)
    → List String
    → Option (List ModelAlias)
    → Option String
    → Option String
    → Resolved
unfolding pick with_inferred
resolve_model lower chain rows provider_hint model_hint =
    let plain = pick chain (with_inferred lower chain provider_hint model_hint) model_hint none in
    elim (hint model_hint) [
      | none ↦ plain
      | some name ↦ elim rows [
        | none ↦ plain
        | some table ↦ elim (find_alias name table) [
          | none ↦ plain
          | some a ↦
              pick chain (with_inferred lower chain (some a.provider) (some a.model)) (some a.model)
                (some name)
        ]
      ]
    ]

-- With a fallback chain, an active alias whose provider and model are not empty decides both,
-- whatever provider was asked for, and is reported.
resolve_model-alias :
    (lower : String → String) (first : String) (chain : List String) (table : List ModelAlias)
    (provider_hint : Option String) (name : String) (a : ModelAlias)
    → hint (some name) ≡ some name
    → find_alias name table ≡ some a
    → hint (some a.provider) ≡ some a.provider
    → hint (some a.model) ≡ some a.model
    → resolve_model lower (first ∷ chain) (some table) provider_hint (some name)
      ≡ record { provider = a.provider; model = a.model; alias_used = some name }
unfolding resolve_model
resolve_model-alias lower first chain table provider_hint name a n f p m = ground arith

-- With a fallback chain, and no alias of the model's name, the hints are taken as they are.
resolve_model-hints :
    (lower : String → String) (first : String) (chain : List String) (table : List ModelAlias)
    (provider model : String)
    → hint (some provider) ≡ some provider
    → hint (some model) ≡ some model
    → find_alias model table ≡ none
    → resolve_model lower (first ∷ chain) (some table) (some provider) (some model)
      ≡ record { provider = provider; model = model; alias_used = none }
unfolding resolve_model
resolve_model-hints lower first chain table provider model p m f = ground arith

-- With an empty fallback chain the provider is "anthropic", even where the request or an alias names
-- another.
resolve_model-empty_chain :
    (lower : String → String) (rows : Option (List ModelAlias))
    (provider_hint model_hint : Option String)
    → (resolve_model lower [] rows provider_hint model_hint).provider ≡ "anthropic"
unfolding resolve_model
resolve_model-empty_chain lower rows provider_hint model_hint = ground arith
