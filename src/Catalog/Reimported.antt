-- ===== src/Catalog/Reimported.antt =====
-- `import_config` of config_export.py as a whole: what a second import does.
use mathlib.Core.Option.{some-injective, none-ne-some}
use llm_sentinel.Prelude.{
  ℕ, ◌+◌, ◌≡◌, ◌≢◌, refl, sym, ap, ◌∙◌, subst, String, Bool, true, false, List, [], ◌∷◌, Option,
  none, some, arith, string_eq, if◌then◌else◌, length, All, All-map, inl, inr, beq_self,
}
use llm_sentinel.Guardrails.Request.{or_default}
use llm_sentinel.Catalog.Imported.{import_each-again}
use llm_sentinel.Catalog.Sections.{
  Loops, result_of, import_sections-Loops, import_sections-from_Loops,
}
use llm_sentinel.Catalog.Entries.{
  AlertEntry, PatternEntry, AliasEntry, RateEntry, ClientEntry, ExportData, ImportOptions, Tables,
  ImportTools, is_text, same_pattern, same_alias, same_rate, same_alert, same_client, pattern_row,
  alias_row, rate_row, alert_row, client_row,
}
use llm_sentinel.Catalog.Portable.{
  from_rows, never, alias_clashes, ImportResult, import_patterns, import_aliases, import_rates,
  import_alerts, import_clients, import_sections, validity, committed, after_check, import_config,
}

abbrev is_given : Option String → Bool
is_given none = false
is_given (some t) = true

is_text-given : (o : Option String) → is_given o ≡ true → is_text o (or_default "" o) ≡ true
is_text-given none h = cc
is_text-given (some t) h = beq_self t

-- The entries have the keys that a row is looked for by, as those of an export do.
pub record HasKeys (exported : ExportData) : Type 0 where
  pub patterns : All (λ (e : PatternEntry). is_given e.name ≡ true) exported.filter_patterns
  pub aliases : All (λ (e : AliasEntry). is_given e.alias ≡ true) exported.model_aliases
  pub rates :
      All
        (λ (e : RateEntry). (is_given e.provider ≡ true) × (is_given e.model ≡ true))
        exported.cost_rates
  pub alerts :
      All
        (λ (e : AlertEntry). (is_given e.webhook_url ≡ true) × (is_given e.event_type ≡ true))
        exported.alert_configs

All-if {ℓ κ} :
    {A : Type ℓ} (P : A → Type κ) (chosen : Bool) (xs : List A)
    → All P xs
    → All P (if chosen then xs else [])
All-if P true xs h = h
All-if P false xs h = tt

All-each {ℓ κ} : {A : Type ℓ} (P : A → Type κ) (xs : List A) → ((x : A) → P x) → All P xs
All-each P [] f = tt
All-each P (x ∷ xs) f = (f x, All-each P xs f)

abbrev chosen_alerts : ExportData → ImportOptions → List AlertEntry
chosen_alerts exported options = if options.import_alert_configs then exported.alert_configs else []

abbrev chosen_clients : ExportData → ImportOptions → List ClientEntry
chosen_clients exported options = if options.import_clients then exported.clients else []

-- The entries that an import considers.
abbrev considered : ExportData → ImportOptions → ℕ
considered exported options =
    length exported.filter_patterns
    + length exported.model_aliases
    + length exported.cost_rates
    + length (chosen_alerts exported options)
    + length (chosen_clients exported options)

-- The result of an import that passes over all that it considers.
abbrev pub nothing_added : ExportData → ImportOptions → Option Bool → ImportResult
nothing_added exported options valid = record {
  imported_filter_patterns = 0;
  imported_aliases = 0;
  imported_cost_rates = 0;
  imported_alert_configs = 0;
  imported_clients = 0;
  skipped = considered exported options;
  errors = [];
  signature_valid = valid;
}

abbrev pub not_overwriting : ImportOptions → ImportOptions
not_overwriting options = record options { overwrite_existing = false }

committed-some :
    (o : Option (ImportResult × Tables)) (tables : Tables) (result : ImportResult)
    (tables' : Tables)
    → committed o tables ≡ (some result, tables')
    → o ≡ some (result, tables')
committed-some none tables result tables' h =
    absurd (none-ne-some result (ap (λ (r : Option ImportResult × Tables). r.0) h))
committed-some (some (r, t)) tables result tables' h = ground (arith, h)

-- A check that lets an import through lets it through again.
after_check-accepted :
    (valid : Option Bool) (sections : Option Bool → Option (ImportResult × Tables))
    (tables : Tables) (result : ImportResult) (tables' : Tables)
    → after_check valid sections tables ≡ (some result, tables')
    → result.errors ≡ []
    → (sections valid ≡ some (result, tables')) × (valid ≢ some false)
after_check-accepted none sections tables result tables' h fine =
    (committed-some (sections none) tables result tables' h, λ e. ground (arith, e))
after_check-accepted (some true) sections tables result tables' h fine =
    (committed-some (sections (some true)) tables result tables' h, λ e. ground (arith, e))
after_check-accepted (some false) sections tables result tables' h fine =
    absurd (ground (arith, h, fine))

after_check-done :
    (valid : Option Bool) (sections : Option Bool → Option (ImportResult × Tables))
    (tables : Tables) (result : ImportResult) (tables' : Tables)
    → valid ≢ some false
    → sections valid ≡ some (result, tables')
    → after_check valid sections tables ≡ (some result, tables')
after_check-done none sections tables result tables' accepted h = rw h refl
after_check-done (some true) sections tables result tables' accepted h = rw h refl
after_check-done (some false) sections tables result tables' accepted h = absurd (accepted refl)

module _ (tools : ImportTools) (exported : ExportData) (options : ImportOptions)
    (tables : Tables) where
  -- The loops of a second import.
  loops_again :
      (valid : Option Bool)
      → HasKeys exported
      → (l : Loops tools exported options tables)
      → Loops tools exported
          (not_overwriting options)
          (result_of tools exported options tables valid l).1
  unfolding import_patterns import_aliases import_rates import_alerts import_clients
  loops_again valid keys l = record {
    patterns = record (from_rows l.patterns.rows) { skipped = length exported.filter_patterns };
    aliases = record (from_rows l.aliases.rows) { skipped = length exported.model_aliases };
    rates = record (from_rows l.rates.rows) { skipped = length exported.cost_rates };
    alerts = record (from_rows l.alerts.rows) { skipped = length (chosen_alerts exported options) };
    clients = record (from_rows l.clients.rows) {
      skipped = length (chosen_clients exported options);
    };
    got_patterns =
        import_each-again same_pattern (pattern_row tools) never options.overwrite_existing
          exported.filter_patterns tables.patterns l.patterns
          (All-map (λ (e : PatternEntry). is_given e.name ≡ true)
            (λ e. (n : ℕ) → same_pattern e (pattern_row tools n e) ≡ true)
            (λ e h n. is_text-given e.name h) exported.filter_patterns keys.patterns)
          l.got_patterns;
    got_aliases =
        import_each-again same_alias (alias_row tools) alias_clashes options.overwrite_existing
          exported.model_aliases tables.aliases l.aliases
          (All-map (λ (e : AliasEntry). is_given e.alias ≡ true)
            (λ e. (n : ℕ) → same_alias e (alias_row tools n e) ≡ true)
            (λ e h n. is_text-given e.alias h) exported.model_aliases keys.aliases)
          l.got_aliases;
    got_rates =
        import_each-again same_rate (rate_row tools) never options.overwrite_existing
          exported.cost_rates tables.rates l.rates
          (All-map (λ (e : RateEntry). (is_given e.provider ≡ true) × (is_given e.model ≡ true))
            (λ e. (n : ℕ) → same_rate e (rate_row tools n e) ≡ true)
            (λ e h n. ground (arith, is_text-given e.provider h.0, is_text-given e.model h.1))
            exported.cost_rates keys.rates)
          l.got_rates;
    got_alerts =
        import_each-again same_alert (alert_row tools) never options.overwrite_existing
          (chosen_alerts exported options) tables.alerts l.alerts
          (All-if (λ e. (n : ℕ) → same_alert e (alert_row tools n e) ≡ true)
            options.import_alert_configs exported.alert_configs
            (All-map
              (λ (e : AlertEntry). (is_given e.webhook_url ≡ true) × (is_given e.event_type ≡ true))
              (λ e. (n : ℕ) → same_alert e (alert_row tools n e) ≡ true)
              (λ e h n.
                ground (arith, is_text-given e.webhook_url h.0, is_text-given e.event_type h.1))
              exported.alert_configs keys.alerts))
          l.got_alerts;
    got_clients =
        import_each-again same_client (client_row tools) never false
          (chosen_clients exported options) tables.clients l.clients
          (All-if (λ e. (n : ℕ) → same_client e (client_row tools n e) ≡ true)
            options.import_clients exported.clients
            (All-each (λ e. (n : ℕ) → same_client e (client_row tools n e) ≡ true) exported.clients
              (λ e n. beq_self (or_default "" e.name))))
          l.got_clients;
  }

  -- An import that ends without an error, of entries that have their keys: a second import of the same
  -- data without overwriting passes over every entry and leaves the tables as they are.
  pub import_config-again :
      (secret : String) (result : ImportResult) (tables' : Tables)
      → HasKeys exported
      → import_config tools secret exported options tables ≡ (some result, tables')
      → result.errors ≡ []
      → import_config tools secret exported (not_overwriting options) tables'
        ≡ (some (nothing_added exported options result.signature_valid), tables')
  unfolding import_config loops_again
  import_config-again secret result tables' keys h fine =
      let valid = validity tools secret exported options in
      let (done, checked) =
        after_check-accepted valid (import_sections tools exported options tables) tables result
          tables' h fine in
      elim (import_sections-Loops tools exported options tables valid) [
        | inl failed ↦ absurd (none-ne-some (result, tables') (sym failed ∙ done))
        | inr (l, e) ↦
            let first = result_of tools exported options tables valid l in
            let same : first ≡ (result, tables') =
              some-injective first (result, tables') (sym e ∙ done) in
            let again = loops_again valid keys l in
            let second = result_of tools exported (not_overwriting options) first.1 valid again in
            let twice : import_config tools secret exported (not_overwriting options) first.1
                ≡ (some second.0, first.1) =
              after_check-done valid
                (import_sections tools exported (not_overwriting options) first.1) first.1 second.0
                first.1 checked
                (import_sections-from_Loops tools exported (not_overwriting options) first.1 valid
                  again) in
            subst
              (λ (r : ImportResult × Tables).
                import_config tools secret exported (not_overwriting options) r.1
                ≡ (some (nothing_added exported options r.0.signature_valid), r.1))
              same twice
      ]
