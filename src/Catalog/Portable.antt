-- ===== src/Catalog/Portable.antt =====
-- config_export.py: the check of the signature and the import of a configuration.
use llm_sentinel.Prelude.{
  ℕ, ◌+◌, String, Bool, true, false, List, [], ◌∷◌, ◌++◌, Option, none, some, ◌==◌, string_eq,
  if◌then◌else◌, length,
}
use llm_sentinel.Guardrails.Request.{or_default}
use llm_sentinel.Auth.State.{first_where, Client}
use llm_sentinel.Clients.Rates.{CostRate}
use llm_sentinel.Catalog.Rows.{is_found}
use llm_sentinel.Catalog.Aliases.{AliasRow, has_alias}
use llm_sentinel.Catalog.Patterns.{PatternRow}
use llm_sentinel.Catalog.Entries.{
  AlertConfig, ExportData, ImportOptions, ImportTools, Tables, alert_row, alias_row, client_row,
  pattern_row, rate_row, same_alert, same_alias, same_client, same_pattern, same_rate,
}

-- `verify_signature`, with KEY_ENCRYPTION_SECRET.
unfoldable pub verify_signature : ImportTools → String → ExportData → Option Bool
verify_signature tools secret exported =
    let signature : String = or_default "" exported.signature in
    if signature == ""
    then none
    else if secret == ""
    then none
    else some (tools.sign exported secret == signature)

-- The rows of a table behind a loop, and how many entries it added and passed over.
pub record Imported {ℓ} (R : Type ℓ) : Type ℓ where
  pub rows : List R
  pub added : ℕ
  pub skipped : ℕ

-- One of the loops. `clashes` says whether the database refuses a row; the loop then raises.
unfoldable pub import_each {ℓ κ} :
    {E : Type ℓ} {R : Type κ} (same : E → R → Bool) (row_of : ℕ → E → R)
    (clashes : R → List R → Bool)
    → Bool
    → List E
    → Imported R
    → Option (Imported R)
import_each same row_of clashes overwrite [] got = some got
import_each same row_of clashes overwrite (e ∷ es) got =
    let skip =
      import_each same row_of clashes overwrite es (record got { skipped = got.skipped + 1 }) in
    let add = import_each same row_of clashes overwrite es (record got {
      rows = got.rows ++ (row_of (length got.rows) e ∷ []);
      added = got.added + 1;
    }) in
    if is_found (first_where (same e) got.rows)
    then (if overwrite
        then (if clashes (row_of (length got.rows) e) got.rows then none else add)
        else skip)
    else if clashes (row_of (length got.rows) e) got.rows
    then none
    else add

abbrev pub from_rows {ℓ} : {R : Type ℓ} → List R → Imported R
from_rows rows = record { rows = rows; added = 0; skipped = 0 }

abbrev pub never {ℓ} : {R : Type ℓ} → R → List R → Bool
never r rows = false

-- The column `alias` is unique.
abbrev pub alias_clashes : AliasRow → List AliasRow → Bool
alias_clashes r rows = is_found (first_where (has_alias r.alias) rows)

pub record ImportResult : Type 0 where
  pub imported_filter_patterns : ℕ
  pub imported_aliases : ℕ
  pub imported_cost_rates : ℕ
  pub imported_alert_configs : ℕ
  pub imported_clients : ℕ
  pub skipped : ℕ
  pub errors : List String
  pub signature_valid : Option Bool

infixl 5 ◌>>=◌
abbrev ◌>>=◌ {ℓ κ} : {A : Type ℓ} {B : Type κ} → Option A → (A → Option B) → Option B
none >>= f = none
some a >>= f = f a

module _ (tools : ImportTools) (exported : ExportData) (options : ImportOptions)
    (tables : Tables) where
  unfoldable pub import_patterns : Option (Imported PatternRow)
  import_patterns =
      import_each same_pattern (pattern_row tools) never options.overwrite_existing
        exported.filter_patterns (from_rows tables.patterns)

  unfoldable pub import_aliases : Option (Imported AliasRow)
  import_aliases =
      import_each same_alias (alias_row tools) alias_clashes options.overwrite_existing
        exported.model_aliases (from_rows tables.aliases)

  -- The third column of the unique key of a rate is the time of its insertion.
  unfoldable pub import_rates : Option (Imported CostRate)
  import_rates =
      import_each same_rate (rate_row tools) never options.overwrite_existing exported.cost_rates
        (from_rows tables.rates)

  unfoldable pub import_alerts : Option (Imported AlertConfig)
  import_alerts =
      import_each same_alert (alert_row tools) never options.overwrite_existing
        (if options.import_alert_configs then exported.alert_configs else [])
        (from_rows tables.alerts)

  -- A client that is there is passed over whatever the options.
  unfoldable pub import_clients : Option (Imported Client)
  import_clients =
      import_each same_client (client_row tools) never false
        (if options.import_clients then exported.clients else []) (from_rows tables.clients)

  -- The body of `import_config` behind the check of the signature; `none` is an error of the database.
  unfoldable pub import_sections : Option Bool → Option (ImportResult × Tables)
  import_sections valid = import_patterns >>= λ patterns. import_aliases >>= λ aliases.
      import_rates >>= λ rates. import_alerts >>= λ alerts. import_clients >>= λ clients. some (
        record {
          imported_filter_patterns = patterns.added;
          imported_aliases = aliases.added;
          imported_cost_rates = rates.added;
          imported_alert_configs = alerts.added;
          imported_clients = clients.added;
          skipped =
              patterns.skipped + aliases.skipped + rates.skipped + alerts.skipped + clients.skipped;
          errors = [];
          signature_valid = valid;
        },
        record {
          patterns = patterns.rows;
          aliases = aliases.rows;
          rates = rates.rows;
          alerts = alerts.rows;
          clients = clients.rows;
        },
      )

abbrev pub refused : ImportResult
refused = record {
  imported_filter_patterns = 0;
  imported_aliases = 0;
  imported_cost_rates = 0;
  imported_alert_configs = 0;
  imported_clients = 0;
  skipped = 0;
  errors = "Invalid signature — data may have been tampered with" ∷ [];
  signature_valid = some false;
}

-- `result.signature_valid`
abbrev pub validity : ImportTools → String → ExportData → ImportOptions → Option Bool
validity tools secret exported options =
    if options.verify_signature then verify_signature tools secret exported else none

abbrev pub committed : Option (ImportResult × Tables) → Tables → Option ImportResult × Tables
committed none tables = (none, tables)
committed (some (result, tables')) tables = (some result, tables')

-- What follows the check of the signature, whose result is given.
abbrev pub after_check :
    Option Bool
    → (Option Bool → Option (ImportResult × Tables))
    → Tables
    → Option ImportResult × Tables
after_check (some false) sections tables = (some refused, tables)
after_check (some true) sections tables = committed (sections (some true)) tables
after_check none sections tables = committed (sections none) tables

-- `get_db` takes everything back where the body raises, which is the result `none`.
unfoldable pub import_config :
    ImportTools → String → ExportData → ImportOptions → Tables → Option ImportResult × Tables
import_config tools secret exported options tables =
    after_check (validity tools secret exported options)
      (import_sections tools exported options tables) tables
