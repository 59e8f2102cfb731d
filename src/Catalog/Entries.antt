-- ===== src/Catalog/Entries.antt =====
-- The entries of an exported configuration, the rows that an import makes of them, and the tests by which
-- it looks for rows (config_export.py). An exported entry is a dict, and a key that it may lack is an
-- Option; prices are texts. The ids that the database makes are given by the number of a row, and
-- HMAC-SHA256, json and the keys that auth.py makes are arguments.
use llm_sentinel.Prelude.{
  ℕ, String, Bool, true, false, ◌&&◌, List, [], ◌∷◌, Option, none, some, ◌==◌, string_eq,
}
use llm_sentinel.Guardrails.Request.{or_default}
use llm_sentinel.Auth.State.{Client}
use llm_sentinel.Clients.Rates.{CostRate}
use llm_sentinel.Catalog.Aliases.{AliasRow}
use llm_sentinel.Catalog.Patterns.{PatternRow}

pub record AlertConfig : Type 0 where
  pub id : String
  pub event_type : String
  pub webhook_url : String
  pub description : Option String
  pub is_active : Bool
  pub min_severity : String

pub record PatternEntry : Type 0 where
  pub name : Option String
  pub pattern : Option String
  pub replacement : Option String
  pub flags : Option String
  pub is_active : Option Bool
  pub is_builtin : Option Bool

pub record AliasEntry : Type 0 where
  pub alias : Option String
  pub provider : Option String
  pub model : Option String
  pub description : Option String
  pub is_active : Option Bool

pub record RateEntry : Type 0 where
  pub provider : Option String
  pub model : Option String
  pub input_cost_per_1k : Option String
  pub output_cost_per_1k : Option String

pub record AlertEntry : Type 0 where
  pub event_type : Option String
  pub webhook_url : Option String
  pub description : Option String
  pub is_active : Option Bool
  pub min_severity : Option String

pub record ClientEntry : Type 0 where
  pub name : Option String
  pub roles : Option (List String)
  pub permissions : Option (List String)

-- ConfigExportData; the sections that the import does not read are left out.
pub record ExportData : Type 0 where
  pub signature : Option String
  pub filter_patterns : List PatternEntry
  pub model_aliases : List AliasEntry
  pub cost_rates : List RateEntry
  pub alert_configs : List AlertEntry
  pub clients : List ClientEntry

pub record ImportOptions : Type 0 where
  pub overwrite_existing : Bool
  pub import_clients : Bool
  pub import_alert_configs : Bool
  pub verify_signature : Bool

pub record Tables : Type 0 where
  pub patterns : List PatternRow
  pub aliases : List AliasRow
  pub rates : List CostRate
  pub alerts : List AlertConfig
  pub clients : List Client

-- `sign` is `_sign` of all but the signature; `api_key_hash` hashes the key that is made for the client
-- of a number.
pub record ImportTools : Type 0 where
  pub new_id : ℕ → String
  pub sign : ExportData → String → String
  pub api_key_hash : ℕ → String

-- `select(...).where(column == value)`: a missing value is NULL, which equals nothing.
abbrev pub is_text : Option String → String → Bool
is_text none t = false
is_text (some s) t = t == s

abbrev pub same_pattern : PatternEntry → PatternRow → Bool
same_pattern e r = is_text e.name r.name

abbrev pub same_alias : AliasEntry → AliasRow → Bool
same_alias e r = is_text e.alias r.alias

abbrev pub same_rate : RateEntry → CostRate → Bool
same_rate e r = is_text e.provider r.provider && is_text e.model r.model

abbrev pub same_alert : AlertEntry → AlertConfig → Bool
same_alert e r = is_text e.webhook_url r.webhook_url && is_text e.event_type r.event_type

abbrev pub same_client : ClientEntry → Client → Bool
same_client e r = r.name == or_default "" e.name

abbrev pub pattern_row : ImportTools → ℕ → PatternEntry → PatternRow
pattern_row tools n e = record {
  id = tools.new_id n;
  name = or_default "" e.name;
  pattern = or_default "" e.pattern;
  replacement = or_default "[REDACTED]" e.replacement;
  flags = or_default "IGNORECASE" e.flags;
  is_active = or_default true e.is_active;
  is_builtin = or_default false e.is_builtin;
}

abbrev pub alias_row : ImportTools → ℕ → AliasEntry → AliasRow
alias_row tools n e = record {
  id = tools.new_id n;
  alias = or_default "" e.alias;
  provider = or_default "" e.provider;
  model = or_default "" e.model;
  description = e.description;
  is_active = or_default true e.is_active;
  usage_count = 0;
}

abbrev pub rate_row : ImportTools → ℕ → RateEntry → CostRate
rate_row tools n e = record {
  id = tools.new_id n;
  provider = or_default "" e.provider;
  model = or_default "" e.model;
  input_cost_per_1k = or_default "0" e.input_cost_per_1k;
  output_cost_per_1k = or_default "0" e.output_cost_per_1k;
  is_active = true;
}

abbrev pub alert_row : ImportTools → ℕ → AlertEntry → AlertConfig
alert_row tools n e = record {
  id = tools.new_id n;
  event_type = or_default "" e.event_type;
  webhook_url = or_default "" e.webhook_url;
  description = e.description;
  is_active = or_default true e.is_active;
  min_severity = or_default "warning" e.min_severity;
}

abbrev pub client_row : ImportTools → ℕ → ClientEntry → Client
client_row tools n e = record {
  id = tools.new_id n;
  name = or_default "" e.name;
  api_key_hash = tools.api_key_hash n;
  roles = some (or_default ("api_client" ∷ []) e.roles);
  permissions = some (or_default ("*" ∷ []) e.permissions);
  daily_token_quota = 0;
  is_active = false;
  last_used_at = none;
}
