-- ===== src/Tests/Catalogs.antt =====
-- The theorems on the tables of an administrator at small tables.
use llm_sentinel.Prelude.{◌≡◌, refl, String, true, false, List, [], ◌∷◌, none, some, string_eq, map}
use llm_sentinel.Prelude.Text.{str}
use llm_sentinel.Proxy.Resolve.{find_alias}
use llm_sentinel.Catalog.Aliases.{
  AliasRow, AliasCreate, builtin, new_row, create_alias, is_slug, resolved_by,
}
use llm_sentinel.Catalog.Uniqueness.{
  Unique, creates, deletes, uses, run_changes, run_changes-Unique, find_alias-create_alias,
}
use llm_sentinel.Catalog.Patterns.{PatternRow}
use llm_sentinel.Catalog.BuiltIn.{
  toggles, deletes as removes, builtin_names, run_edits, run_edits-builtin_names,
}
use llm_sentinel.Catalog.Entries.{ExportData, ImportOptions, Tables, ImportTools}
use llm_sentinel.Catalog.Portable.{
  import_each, import_patterns, import_aliases, import_rates, import_alerts, import_clients,
  import_sections, verify_signature, import_config,
}
use llm_sentinel.Catalog.Kept.{Kept, import_config-Kept}
use llm_sentinel.Catalog.Reimported.{not_overwriting, nothing_added, import_config-again}

abbrev fast : AliasCreate
fast = builtin "fast" "openai" "gpt-4o-mini" "A fast model"

abbrev smart : AliasCreate
smart = builtin "smart" "openai" "gpt-4o" "A smart model"

abbrev alias_table : List AliasRow
alias_table = new_row "a1" fast ∷ []

run_changes-Unique_example : Unique (
    run_changes
      (creates "a2" smart ∷ (creates "a3" fast ∷ (uses "a2" ∷ (deletes "a1" ∷ []))))
      alias_table)
run_changes-Unique_example =
    run_changes-Unique
      (creates "a2" smart ∷ (creates "a3" fast ∷ (uses "a2" ∷ (deletes "a1" ∷ [])))) alias_table
      (tt, tt)

find_alias-create_alias_example :
    find_alias "smart" (map resolved_by (create_alias "a2" smart alias_table).1)
    ≡ some (resolved_by (new_row "a2" smart))
unfolding create_alias is_slug
find_alias-create_alias_example =
    find_alias-create_alias "a2" "smart" smart alias_table (new_row "a2" smart) refl

abbrev pattern_of : String → PatternRow
pattern_of name = record {
  id = name;
  name = name;
  pattern = "x";
  replacement = "y";
  flags = "IGNORECASE";
  is_active = true;
  is_builtin = true;
}

-- The built-in pattern stays, though it is switched off and its deletion is tried.
run_edits-builtin_names_example :
    builtin_names (run_edits (toggles "JWT" false ∷ (removes "JWT" ∷ [])) (pattern_of "JWT" ∷ []))
    ≡ "JWT" ∷ []
run_edits-builtin_names_example =
    run_edits-builtin_names (toggles "JWT" false ∷ (removes "JWT" ∷ [])) (pattern_of "JWT" ∷ [])

abbrev tools : ImportTools
tools = record { new_id = str; sign = λ exported secret. secret; api_key_hash = str }

-- One pattern that is there, and one alias and one client that are not.
abbrev exported : ExportData
exported = record {
  signature = some "secret";
  filter_patterns =
      record {
        name = some "JWT";
        pattern = some "x";
        replacement = none;
        flags = none;
        is_active = none;
        is_builtin = none;
      }
      ∷ [];
  model_aliases =
      record {
        alias = some "smart";
        provider = some "openai";
        model = some "gpt-4o";
        description = none;
        is_active = none;
      }
      ∷ [];
  cost_rates = [];
  alert_configs = [];
  clients = record { name = some "web"; roles = none; permissions = none } ∷ [];
}

abbrev options : ImportOptions
options = record {
  overwrite_existing = true;
  import_clients = true;
  import_alert_configs = true;
  verify_signature = true;
}

abbrev tables : Tables
tables = record {
  patterns = pattern_of "JWT" ∷ [];
  aliases = alias_table;
  rates = [];
  alerts = [];
  clients = [];
}

abbrev tables_behind : Tables
unfolding import_config import_sections import_patterns import_aliases import_rates import_alerts
    import_clients import_each verify_signature str
tables_behind = (import_config tools "secret" exported options tables).1

-- The import overwrites and adds a second row for the pattern; the next one adds nothing.
import_config-again_example :
    import_config tools "secret" exported (not_overwriting options) tables_behind
    ≡ (some (nothing_added exported options (some true)), tables_behind)
unfolding import_config import_sections import_patterns import_aliases import_rates import_alerts
    import_clients import_each verify_signature str tables_behind
import_config-again_example =
    import_config-again tools exported options tables "secret"
      (record {
        imported_filter_patterns = 1;
        imported_aliases = 1;
        imported_cost_rates = 0;
        imported_alert_configs = 0;
        imported_clients = 1;
        skipped = 0;
        errors = [];
        signature_valid = some true;
      })
      tables_behind
      (record { patterns = (refl, tt); aliases = (refl, tt); rates = tt; alerts = tt }) refl refl

import_config-Kept_example : Kept tables (import_config tools "secret" exported options tables).1
import_config-Kept_example = import_config-Kept tools exported options tables "secret"
