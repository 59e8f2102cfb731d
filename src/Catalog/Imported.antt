-- ===== src/Catalog/Imported.antt =====
-- What an import leaves of the tables, and what a second one does (config_export.py).
use mathlib.Core.List.{append_assoc, append-nil}
use mathlib.Core.Option.{some-injective, none-ne-some}
use llm_sentinel.Prelude.{
  ◌⊎◌, ℕ, ◌+◌, ◌≡◌, refl, sym, ap, ◌∙◌, subst, Bool, true, false, List, [], ◌∷◌, ◌++◌, none, some,
  arith, string_eq, length, All, Bool-cases, inl, inr,
}
use llm_sentinel.Auth.State.{first_where}
use llm_sentinel.Catalog.Rows.{is_found, first_where-append}
use llm_sentinel.Catalog.Portable.{Imported, import_each, from_rows}

module _ {ℓ κ} {E : Type ℓ} {R : Type κ} (same : E → R → Bool) (row_of : ℕ → E → R)
    (clashes : R → List R → Bool) where
  abbrev skipping : Imported R → Imported R
  skipping got = record got { skipped = got.skipped + 1 }

  abbrev adding : E → Imported R → Imported R
  adding e got = record got {
    rows = got.rows ++ (row_of (length got.rows) e ∷ []);
    added = got.added + 1;
  }

  -- One entry is passed over, added, or ends the loop.
  import_each-cases :
      (overwrite : Bool) (e : E) (es : List E) (got : Imported R)
      → let whole = import_each same row_of clashes overwrite (e ∷ es) got in
        ((is_found (first_where (same e) got.rows) ≡ true)
          × (whole ≡ import_each same row_of clashes overwrite es (skipping got)))
        ⊎ (((clashes (row_of (length got.rows) e) got.rows ≡ false)
              × (whole ≡ import_each same row_of clashes overwrite es (adding e got)))
            ⊎ (whole ≡ none))
  unfolding import_each
  import_each-cases true e es got = elim (Bool-cases (is_found (first_where (same e) got.rows))) [
    | inl found ↦ elim (Bool-cases (clashes (row_of (length got.rows) e) got.rows)) [
      | inl clash ↦ inr (inr (rw (found, clash) refl))
      | inr free ↦ inr (inl (free, rw (found, free) refl))
    ]
    | inr absent ↦ elim (Bool-cases (clashes (row_of (length got.rows) e) got.rows)) [
      | inl clash ↦ inr (inr (rw (absent, clash) refl))
      | inr free ↦ inr (inl (free, rw (absent, free) refl))
    ]
  ]
  import_each-cases false e es got = elim (Bool-cases (is_found (first_where (same e) got.rows))) [
    | inl found ↦ inl (found, rw found refl)
    | inr absent ↦ elim (Bool-cases (clashes (row_of (length got.rows) e) got.rows)) [
      | inl clash ↦ inr (inr (rw (absent, clash) refl))
      | inr free ↦ inr (inl (free, rw (absent, free) refl))
    ]
  ]

  -- The loop changes no row: it adds rows behind those of the table.
  pub import_each-extends :
      (overwrite : Bool) (es : List E) (got got' : Imported R)
      → import_each same row_of clashes overwrite es got ≡ some got'
      → (new : List R) × (got'.rows ≡ got.rows ++ new)
  unfolding import_each
  import_each-extends overwrite [] got got' h = (
    [],
    ap (λ (o : Imported R). o.rows) (sym (some-injective got got' h)) ∙ sym (append-nil got.rows),
  )
  import_each-extends overwrite (e ∷ es) got got' h = elim (import_each-cases overwrite e es got) [
    | inl (found, skip) ↦ import_each-extends overwrite es (skipping got) got' (sym skip ∙ h)
    | inr (inl (free, add)) ↦
        let (new, eq) = import_each-extends overwrite es (adding e got) got' (sym add ∙ h) in
        let row = row_of (length got.rows) e in
        (row ∷ new, eq ∙ append_assoc got.rows (row ∷ []) new)
    | inr (inr fail) ↦ absurd (none-ne-some got' (sym fail ∙ h))
  ]

  -- An entry is found in a table.
  abbrev Found : List R → E → Type 0
  Found rows e = is_found (first_where (same e) rows) ≡ true

  Found-append : (rows new : List R) (e : E) → Found rows e → Found (rows ++ new) e
  Found-append rows new e h = rw (first_where-append (same e) rows new) (ground (arith, h))

  -- Where each entry would find its own row, all are found behind the loop.
  import_each-Found :
      (overwrite : Bool) (es : List E) (got got' : Imported R)
      → All (λ e. (n : ℕ) → same e (row_of n e) ≡ true) es
      → import_each same row_of clashes overwrite es got ≡ some got'
      → All (Found got'.rows) es
  import_each-Found overwrite [] got got' keyed h = tt
  import_each-Found overwrite (e ∷ es) got got' keyed h =
      elim (import_each-cases overwrite e es got) [
        | inl (found, skip) ↦
            let (new, eq) = import_each-extends overwrite es (skipping got) got' (sym skip ∙ h) in
            (
              subst (λ (rows : List R). Found rows e) (sym eq) (Found-append got.rows new e found),
              import_each-Found overwrite es (skipping got) got' keyed.1 (sym skip ∙ h),
            )
        | inr (inl (free, add)) ↦
            let (new, eq) = import_each-extends overwrite es (adding e got) got' (sym add ∙ h) in
            let row = row_of (length got.rows) e in
            let here : Found (got.rows ++ (row ∷ [])) e =
              rw (first_where-append (same e) got.rows (row ∷ []))
                (ground (arith, keyed.0 (length got.rows))) in
            (
              subst (λ (rows : List R). Found rows e) (sym eq)
                  (Found-append (got.rows ++ (row ∷ [])) new e here),
              import_each-Found overwrite es (adding e got) got' keyed.1 (sym add ∙ h),
            )
        | inr (inr fail) ↦ absurd (none-ne-some got' (sym fail ∙ h))
      ]

  -- Entries that are all found are passed over.
  import_each-skips :
      (es : List E) (got : Imported R)
      → All (Found got.rows) es
      → import_each same row_of clashes false es got
        ≡ some (record got { skipped = got.skipped + length es })
  unfolding import_each
  import_each-skips [] got h = ground arith
  import_each-skips (e ∷ es) got h = rw h.0 (import_each-skips es (skipping got) h.1 ∙ ground arith)

  -- A second loop over the same entries, which finds the rows of the first, adds none.
  pub import_each-again :
      (overwrite : Bool) (es : List E) (rows : List R) (got : Imported R)
      → All (λ e. (n : ℕ) → same e (row_of n e) ≡ true) es
      → import_each same row_of clashes overwrite es (from_rows rows) ≡ some got
      → import_each same row_of clashes false es (from_rows got.rows)
        ≡ some (record { rows = got.rows; added = 0; skipped = length es })
  import_each-again overwrite es rows got keyed h =
      import_each-skips es (from_rows got.rows)
        (import_each-Found overwrite es (from_rows rows) got keyed h)
      ∙ ground arith
