-- ===== src/Catalog/BuiltIn.antt =====
-- What an administrator can do to the filter patterns leaves the built-in ones (filter_db.py).
use llm_sentinel.Prelude.{
  ◌≡◌, refl, ap, ◌∙◌, String, Bool, false, List, [], ◌∷◌, ◌++◌, some, arith, string_eq, select, map,
  Bool-cases, Option-cases, inl, inr,
}
use llm_sentinel.Auth.State.{first_where, update_first}
use llm_sentinel.Catalog.Rows.{remove_first}
use llm_sentinel.Catalog.Patterns.{
  PatternRow, has_pattern_id, set_active, create_pattern, toggle_pattern, delete_pattern,
}

-- The names of the built-in patterns of a table.
abbrev pub builtin_names : List PatternRow → List String
builtin_names table = map (λ r. r.name) (select (λ r. r.is_builtin) table)

-- What an administrator does to the table.
pub data Edit : Type 0 where
  creates : String → String → String → String → String → Edit
  toggles : String → Bool → Edit
  deletes : String → Edit

abbrev run_edit : Edit → List PatternRow → List PatternRow
run_edit (creates id name pattern replacement flags) table =
    (create_pattern id name pattern replacement flags table).1
run_edit (toggles pattern_id is_active) table = (toggle_pattern pattern_id is_active table).1
run_edit (deletes pattern_id) table = (delete_pattern pattern_id table).1

abbrev pub run_edits : List Edit → List PatternRow → List PatternRow
run_edits [] table = table
run_edits (e ∷ es) table = run_edits es (run_edit e table)

builtin_names-append :
    (table : List PatternRow) (r : PatternRow)
    → r.is_builtin ≡ false
    → builtin_names (table ++ (r ∷ [])) ≡ builtin_names table
builtin_names-append [] r h = rw h refl
builtin_names-append (s ∷ table) r h = ground (arith, builtin_names-append table r h)

builtin_names-update :
    (p : PatternRow → Bool) (is_active : Bool) (table : List PatternRow)
    → builtin_names (update_first p (set_active is_active) table) ≡ builtin_names table
builtin_names-update p is_active [] = refl
builtin_names-update p is_active (s ∷ table) =
    ground (arith, builtin_names-update p is_active table)

builtin_names-remove :
    (p : PatternRow → Bool) (table : List PatternRow) (r : PatternRow)
    → first_where p table ≡ some r
    → r.is_builtin ≡ false
    → builtin_names (remove_first p table) ≡ builtin_names table
builtin_names-remove p [] r found h = cc
builtin_names-remove p (s ∷ table) r found h = elim (Bool-cases (p s)) [
  | inl e ↦
      let same : s ≡ r = ground (arith, e, found) in
      let other : s.is_builtin ≡ false = ap (λ (t : PatternRow). t.is_builtin) same ∙ h in
      ground (arith, e, other)
  | inr e ↦ ground (arith, e, builtin_names-remove p table r (ground (arith, e, found)) h)
]

run_edit-builtin_names :
    (e : Edit) (table : List PatternRow) → builtin_names (run_edit e table) ≡ builtin_names table
unfolding create_pattern toggle_pattern delete_pattern
run_edit-builtin_names (creates id name pattern replacement flags) table =
    builtin_names-append table _ refl
run_edit-builtin_names (toggles pattern_id is_active) table =
    ground (arith, builtin_names-update (has_pattern_id pattern_id) is_active table)
run_edit-builtin_names (deletes pattern_id) table =
    elim (Option-cases (first_where (has_pattern_id pattern_id) table)) [
      | inl absent ↦ ground (arith, absent)
      | inr (r, found) ↦ elim (Bool-cases r.is_builtin) [
        | inl h ↦ ground (arith, found, h)
        | inr h ↦
            ground
              (arith, found, h, builtin_names-remove (has_pattern_id pattern_id) table r found h)
      ]
    ]

-- Whatever patterns are created, switched on or off, and deleted, the table has the same built-in
-- patterns, in the same order.
pub run_edits-builtin_names :
    (es : List Edit) (table : List PatternRow)
    → builtin_names (run_edits es table) ≡ builtin_names table
run_edits-builtin_names [] table = refl
run_edits-builtin_names (e ∷ es) table =
    run_edits-builtin_names es (run_edit e table) ∙ run_edit-builtin_names e table
