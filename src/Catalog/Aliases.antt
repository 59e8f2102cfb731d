-- ===== src/Catalog/Aliases.antt =====
-- model_alias.py: aliases as rows of ModelAliasDB, without their listing. An id that the database makes is an
-- argument.
use Prim.Native.Char.{code}
use Prim.Native.String.{[] as nil, ◌∷◌ as cons, ◌++◌ as append}
use llm_sentinel.Prelude.{
  ℕ, ◌+◌, String, Bool, true, false, ◌&&◌, ◌||◌, List, [], ◌∷◌, ◌++◌, Option, none, some, leb,
  nat_beq, ◌==◌, string_eq, if◌then◌else◌,
}
use llm_sentinel.Guardrails.Request.{or_default}
use llm_sentinel.Auth.State.{first_where, update_first}
use llm_sentinel.Proxy.Resolve.{ModelAlias}
use llm_sentinel.Catalog.Rows.{remove_first}

pub record AliasRow : Type 0 where
  pub id : String
  pub alias : String
  pub provider : String
  pub model : String
  pub description : Option String
  pub is_active : Bool
  pub usage_count : ℕ

-- The row as resolve_model of llm_proxy.py reads it.
abbrev pub resolved_by : AliasRow → ModelAlias
resolved_by r = record {
  alias = r.alias;
  provider = r.provider;
  model = r.model;
  is_active = r.is_active;
}

-- The result of a call that may raise a ValueError.
pub data Answer {ℓ} (A : Type ℓ) : Type ℓ where
  answer : A → Answer A
  value_error : String → Answer A

abbrev is_alnum : ℕ → Bool
is_alnum c = leb b'a' c && leb c b'z' || leb b'0' c && leb c b'9'

-- The rest of the expression, `[a-z0-9\-]*$`: `$` also stands before a last line break.
is_slug_tail : String → Bool
is_slug_tail nil = true
is_slug_tail (cons c s) =
    let rest = is_slug_tail s in
    if is_alnum (code c) || nat_beq (code c) b'-' then rest else nat_beq (code c) 10 && s == ""

-- `re.match(r"^[a-z0-9][a-z0-9\-]*$", alias)`
unfoldable pub is_slug : String → Bool
unfolding is_slug_tail
is_slug nil = false
is_slug (cons c s) = is_alnum (code c) && is_slug_tail s

pub record AliasCreate : Type 0 where
  pub alias : String
  pub provider : String
  pub model : String
  pub description : Option String

pub record AliasUpdate : Type 0 where
  pub provider : Option String
  pub model : Option String
  pub description : Option String
  pub is_active : Option Bool

abbrev pub has_alias : String → AliasRow → Bool
has_alias alias r = r.alias == alias

abbrev pub has_alias_id : String → AliasRow → Bool
has_alias_id alias_id r = r.id == alias_id

abbrev pub new_row : String → AliasCreate → AliasRow
new_row id create = record {
  id = id;
  alias = create.alias;
  provider = create.provider;
  model = create.model;
  description = create.description;
  is_active = true;
  usage_count = 0;
}

abbrev pub builtin : String → String → String → String → AliasCreate
builtin alias provider model description = record {
  alias = alias;
  provider = provider;
  model = model;
  description = some description;
}

abbrev pub builtin_aliases : List AliasCreate
builtin_aliases =
    builtin "fast" "anthropic" "claude-haiku-4-5-20251001" "Fast Anthropic model"
    ∷ builtin "smart" "anthropic" "claude-sonnet-4-6" "Smart Anthropic model"
    ∷ builtin "powerful" "anthropic" "claude-opus-4-6" "Most powerful Anthropic model"
    ∷ builtin "gpt-fast" "openai" "gpt-4o-mini" "Fast OpenAI model"
    ∷ builtin "gpt-smart" "openai" "gpt-4o" "Smart OpenAI model"
    ∷ builtin "gemini-fast" "gemini" "gemini-1.5-flash" "Fast Gemini model"
    ∷ builtin "gemini-smart" "gemini" "gemini-1.5-pro" "Smart Gemini model"
    ∷ []

-- The loop of `seed_builtin_aliases`; `new_id` gives the id of a row by its alias.
unfoldable pub seed_each :
    (String → String) → List AliasCreate → ℕ → List AliasRow → ℕ × List AliasRow
seed_each new_id [] count table = (count, table)
seed_each new_id (a ∷ as') count table = elim (first_where (has_alias a.alias) table) [
  | some found ↦ seed_each new_id as' count table
  | none ↦ seed_each new_id as' (count + 1) (table ++ (new_row (new_id a.alias) a ∷ []))
]

unfoldable pub seed_builtin_aliases : (String → String) → List AliasRow → ℕ × List AliasRow
unfolding seed_each
seed_builtin_aliases new_id table = seed_each new_id builtin_aliases 0 table

unfoldable get_alias : String → List AliasRow → Option AliasRow
get_alias alias table = first_where (λ r. has_alias alias r && r.is_active) table

unfoldable pub create_alias : String → AliasCreate → List AliasRow → Answer AliasRow × List AliasRow
create_alias id create table =
    if is_slug create.alias
    then elim (first_where (has_alias create.alias) table) [
      | some existing ↦
          (value_error (append "Alias '" (append create.alias "' already exists")), table)
      | none ↦ (answer (new_row id create), table ++ (new_row id create ∷ []))
    ]
    else (
      value_error
          (append "Alias must be a URL-safe slug (a-z, 0-9, hyphens): '" (append create.alias "'")),
      table,
    )

abbrev pub with_update : AliasUpdate → AliasRow → AliasRow
with_update update r = record r {
  provider = or_default r.provider update.provider;
  model = or_default r.model update.model;
  description = elim update.description [ none ↦ r.description | some d ↦ some d ];
  is_active = or_default r.is_active update.is_active;
}

unfoldable pub update_alias : String → AliasUpdate → List AliasRow → Option AliasRow × List AliasRow
update_alias alias_id update table = elim (first_where (has_alias_id alias_id) table) [
  | none ↦ (none, table)
  | some r ↦
      (some (with_update update r), update_first (has_alias_id alias_id) (with_update update) table)
]

unfoldable pub delete_alias : String → List AliasRow → Bool × List AliasRow
delete_alias alias_id table = elim (first_where (has_alias_id alias_id) table) [
  | none ↦ (false, table)
  | some r ↦ (true, remove_first (has_alias_id alias_id) table)
]

abbrev pub used_once_more : AliasRow → AliasRow
used_once_more r = record r { usage_count = r.usage_count + 1 }

unfoldable pub increment_usage : String → List AliasRow → List AliasRow
increment_usage alias_id table = update_first (has_alias_id alias_id) used_once_more table
