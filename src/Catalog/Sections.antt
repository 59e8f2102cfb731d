-- ===== src/Catalog/Sections.antt =====
-- The five loops of `import_config` of config_export.py, one behind another.
use llm_sentinel.Prelude.{
  ◌+◌, ◌≡◌, ◌⊎◌, refl, Bool, [], Option, none, some, string_eq, Option-cases, inl, inr,
}
use llm_sentinel.Auth.State.{Client}
use llm_sentinel.Clients.Rates.{CostRate}
use llm_sentinel.Catalog.Aliases.{AliasRow}
use llm_sentinel.Catalog.Patterns.{PatternRow}
use llm_sentinel.Catalog.Entries.{AlertConfig, ExportData, ImportOptions, Tables, ImportTools}
use llm_sentinel.Catalog.Portable.{
  Imported, ImportResult, import_patterns, import_aliases, import_rates, import_alerts,
  import_clients, import_sections,
}

-- The loops of an import and their results.
pub record Loops (tools : ImportTools) (exported : ExportData) (options : ImportOptions)
    (tables : Tables) : Type 0 where
  pub patterns : Imported PatternRow
  pub aliases : Imported AliasRow
  pub rates : Imported CostRate
  pub alerts : Imported AlertConfig
  pub clients : Imported Client
  pub got_patterns : import_patterns tools exported options tables ≡ some patterns
  pub got_aliases : import_aliases tools exported options tables ≡ some aliases
  pub got_rates : import_rates tools exported options tables ≡ some rates
  pub got_alerts : import_alerts tools exported options tables ≡ some alerts
  pub got_clients : import_clients tools exported options tables ≡ some clients

module _ (tools : ImportTools) (exported : ExportData) (options : ImportOptions)
    (tables : Tables) where
  abbrev pub result_of : Option Bool → Loops tools exported options tables → ImportResult × Tables
  result_of valid l = (
    record {
      imported_filter_patterns = l.patterns.added;
      imported_aliases = l.aliases.added;
      imported_cost_rates = l.rates.added;
      imported_alert_configs = l.alerts.added;
      imported_clients = l.clients.added;
      skipped =
          l.patterns.skipped + l.aliases.skipped + l.rates.skipped + l.alerts.skipped
          + l.clients.skipped;
      errors = [];
      signature_valid = valid;
    },
    record {
      patterns = l.patterns.rows;
      aliases = l.aliases.rows;
      rates = l.rates.rows;
      alerts = l.alerts.rows;
      clients = l.clients.rows;
    },
  )

  pub import_sections-Loops :
      (valid : Option Bool)
      → (import_sections tools exported options tables valid ≡ none)
        ⊎ ((l : Loops tools exported options tables) × (import_sections tools exported options
                tables valid
              ≡ some (result_of valid l)))
  unfolding import_sections
  import_sections-Loops valid =
      elim (Option-cases (import_patterns tools exported options tables)) [
        | inl h ↦ inl (rw h refl)
        | inr (ps, hp) ↦ elim (Option-cases (import_aliases tools exported options tables)) [
          | inl h ↦ inl (rw (hp, h) refl)
          | inr (as', ha) ↦ elim (Option-cases (import_rates tools exported options tables)) [
            | inl h ↦ inl (rw (hp, ha, h) refl)
            | inr (rs, hr) ↦ elim (Option-cases (import_alerts tools exported options tables)) [
              | inl h ↦ inl (rw (hp, ha, hr, h) refl)
              | inr (ws, hw) ↦ elim (Option-cases (import_clients tools exported options tables)) [
                | inl h ↦ inl (rw (hp, ha, hr, hw, h) refl)
                | inr (cs, hc) ↦ inr (
                  record {
                    patterns = ps;
                    aliases = as';
                    rates = rs;
                    alerts = ws;
                    clients = cs;
                    got_patterns = hp;
                    got_aliases = ha;
                    got_rates = hr;
                    got_alerts = hw;
                    got_clients = hc;
                  },
                  rw (hp, ha, hr, hw, hc) refl,
                )
              ]
            ]
          ]
        ]
      ]

  pub import_sections-from_Loops :
      (valid : Option Bool) (l : Loops tools exported options tables)
      → import_sections tools exported options tables valid ≡ some (result_of valid l)
  unfolding import_sections
  import_sections-from_Loops valid l =
      rw (l.got_patterns, l.got_aliases, l.got_rates, l.got_alerts, l.got_clients) refl
