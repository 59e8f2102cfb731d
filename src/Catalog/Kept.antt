-- ===== src/Catalog/Kept.antt =====
-- An import only adds rows (config_export.py).
use mathlib.Core.List.{append-nil}
use llm_sentinel.Prelude.{
  ◌≡◌, sym, subst, String, Bool, true, false, List, [], ◌++◌, Option, none, some, if◌then◌else◌,
  inl, inr,
}
use llm_sentinel.Auth.State.{first_where}
use llm_sentinel.Catalog.Rows.{first_where-keeps}
use llm_sentinel.Catalog.Patterns.{PatternRow}
use llm_sentinel.Catalog.Imported.{import_each-extends}
use llm_sentinel.Catalog.Sections.{Loops, result_of, import_sections-Loops}
use llm_sentinel.Catalog.Entries.{
  ExportData, ImportOptions, Tables, ImportTools, same_pattern, same_alias, same_rate, same_alert,
  same_client, pattern_row, alias_row, rate_row, alert_row, client_row,
}
use llm_sentinel.Catalog.Portable.{
  from_rows, never, alias_clashes, import_patterns, import_aliases, import_rates, import_alerts,
  import_clients, import_sections, validity, committed, after_check, import_config,
}

-- The first list, with more behind it.
abbrev Begins {ℓ} : {A : Type ℓ} → List A → List A → Type ℓ
Begins {A = A} xs ys = (new : List A) × (ys ≡ xs ++ new)

pub record Kept (before after : Tables) : Type 0 where
  pub patterns : Begins before.patterns after.patterns
  pub aliases : Begins before.aliases after.aliases
  pub rates : Begins before.rates after.rates
  pub alerts : Begins before.alerts after.alerts
  pub clients : Begins before.clients after.clients

Kept-refl : (tables : Tables) → Kept tables tables
Kept-refl tables = record {
  patterns = ([], sym (append-nil tables.patterns));
  aliases = ([], sym (append-nil tables.aliases));
  rates = ([], sym (append-nil tables.rates));
  alerts = ([], sym (append-nil tables.alerts));
  clients = ([], sym (append-nil tables.clients));
}

module _ (tools : ImportTools) (exported : ExportData) (options : ImportOptions)
    (tables : Tables) where
  loops-Kept :
      (valid : Option Bool) (l : Loops tools exported options tables)
      → Kept tables (result_of tools exported options tables valid l).1
  unfolding import_patterns import_aliases import_rates import_alerts import_clients
  loops-Kept valid l = record {
    patterns =
        import_each-extends same_pattern (pattern_row tools) never options.overwrite_existing
          exported.filter_patterns (from_rows tables.patterns) l.patterns l.got_patterns;
    aliases =
        import_each-extends same_alias (alias_row tools) alias_clashes options.overwrite_existing
          exported.model_aliases (from_rows tables.aliases) l.aliases l.got_aliases;
    rates =
        import_each-extends same_rate (rate_row tools) never options.overwrite_existing
          exported.cost_rates (from_rows tables.rates) l.rates l.got_rates;
    alerts =
        import_each-extends same_alert (alert_row tools) never options.overwrite_existing
          (if options.import_alert_configs then exported.alert_configs else [])
          (from_rows tables.alerts) l.alerts l.got_alerts;
    clients =
        import_each-extends same_client (client_row tools) never false
          (if options.import_clients then exported.clients else []) (from_rows tables.clients)
          l.clients l.got_clients;
  }

  committed-Kept :
      (valid : Option Bool)
      → Kept tables (committed (import_sections tools exported options tables valid) tables).1
  committed-Kept valid = elim (import_sections-Loops tools exported options tables valid) [
    | inl failed ↦ rw failed (Kept-refl tables)
    | inr (l, e) ↦ rw e (loops-Kept valid l)
  ]

  after_check-Kept :
      (valid : Option Bool)
      → Kept tables (after_check valid (import_sections tools exported options tables) tables).1
  after_check-Kept none = committed-Kept none
  after_check-Kept (some true) = committed-Kept (some true)
  after_check-Kept (some false) = Kept-refl tables

  -- Whatever the options and the signature, an import changes and removes no row, not where it
  -- overwrites: each table behind it is the table before it with rows added behind.
  pub import_config-Kept :
      (secret : String) → Kept tables (import_config tools secret exported options tables).1
  unfolding import_config
  import_config-Kept secret = after_check-Kept (validity tools secret exported options)

-- So a row that is found by any test is found by it behind an import.
first_where-Kept :
    (p : PatternRow → Bool) (before after : Tables) (r : PatternRow)
    → Kept before after
    → first_where p before.patterns ≡ some r
    → first_where p after.patterns ≡ some r
first_where-Kept p before after r kept h =
    let (new, e) = kept.patterns in
    subst (λ (rows : List PatternRow). first_where p rows ≡ some r) (sym e)
      (first_where-keeps p before.patterns new r h)
