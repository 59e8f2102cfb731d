-- ===== src/Catalog/Uniqueness.antt =====
-- No two aliases are the same, whatever is done to them, and the proxy finds an alias that is made.
use llm_sentinel.Prelude.{
  subst, ◌+◌, ◌≡◌, refl, sym, ap, ◌∙◌, String, Bool, true, false, List, [], ◌∷◌, ◌++◌, some, arith,
  ◌==◌, string_eq, if◌then◌else◌, map, All, All-append, All-map, Bool-cases, Option-cases, inl, inr,
  ℕ,
}
use llm_sentinel.Auth.State.{first_where, update_first}
use llm_sentinel.Proxy.Resolve.{find_alias}
use llm_sentinel.Catalog.Rows.{remove_first, first_where-All, All-remove_first, All-update_first}
use llm_sentinel.Catalog.Aliases.{
  AliasRow, AliasCreate, AliasUpdate, answer, resolved_by, has_alias, has_alias_id, new_row,
  is_slug, seed_each, seed_builtin_aliases, create_alias, with_update, update_alias, delete_alias,
  used_once_more, increment_usage, builtin_aliases,
}

-- Each alias belongs to one row.
abbrev pub Unique : List AliasRow → Type 0
Unique [] = Unit {0}
Unique (r ∷ rs) = All (λ s. has_alias r.alias s ≡ false) rs × Unique rs

beq_sym : (s t : String) → (s == t) ≡ false → (t == s) ≡ false
beq_sym s t h = elim (Bool-cases (t == s)) [
  | inl e ↦ absurd (ground (arith, h, string_eq.agrees_iff t s, string_eq.agrees_iff s t, e))
  | inr e ↦ e
]

append-Unique :
    (rs : List AliasRow) (r : AliasRow)
    → All (λ s. has_alias r.alias s ≡ false) rs
    → Unique rs
    → Unique (rs ++ (r ∷ []))
append-Unique [] r other h = (tt, tt)
append-Unique (s ∷ rs) r other h = (
  All-append (λ t. has_alias s.alias t ≡ false) rs (r ∷ []) h.0
      (beq_sym s.alias r.alias other.0, tt),
  append-Unique rs r other.1 h.1,
)

remove_first-Unique :
    (p : AliasRow → Bool) (rs : List AliasRow) → Unique rs → Unique (remove_first p rs)
remove_first-Unique p [] h = tt
remove_first-Unique p (r ∷ rs) h = elim (Bool-cases (p r)) [
  | inl e ↦ rw e h.1
  | inr e ↦
      rw e
        (All-remove_first (λ s. has_alias r.alias s ≡ false) p rs h.0, remove_first-Unique p rs h.1)
]

-- A change of a row that keeps its alias.
update_first-Unique :
    (p : AliasRow → Bool) (f : AliasRow → AliasRow) (rs : List AliasRow)
    → ((r : AliasRow) → (f r).alias ≡ r.alias)
    → Unique rs
    → Unique (update_first p f rs)
update_first-Unique p f [] keeps h = tt
update_first-Unique p f (r ∷ rs) keeps h = elim (Bool-cases (p r)) [
  | inl e ↦ rw e (
    All-map (λ s. has_alias r.alias s ≡ false) (λ s. has_alias (f r).alias s ≡ false)
        (λ s k. rw (keeps r) k) rs h.0,
    h.1,
  )
  | inr e ↦ rw e (
    All-update_first (λ s. has_alias r.alias s ≡ false) p f rs (λ s k. rw (keeps s) k) h.0,
    update_first-Unique p f rs keeps h.1,
  )
]

create_alias-Unique :
    (id : String) (create : AliasCreate) (rs : List AliasRow)
    → Unique rs
    → Unique (create_alias id create rs).1
unfolding create_alias
create_alias-Unique id create rs h = elim (Bool-cases (is_slug create.alias)) [
  | inr e ↦ rw e h
  | inl e ↦ elim (Option-cases (first_where (has_alias create.alias) rs)) [
    | inl absent ↦
        rw (e, absent)
          (append-Unique rs (new_row id create) (first_where-All (has_alias create.alias) rs absent)
            h)
    | inr (r, found) ↦ rw (e, found) h
  ]
]

seed_each-Unique :
    (new_id : String → String) (cs : List AliasCreate) (count : ℕ) (rs : List AliasRow)
    → Unique rs
    → Unique (seed_each new_id cs count rs).1
unfolding seed_each
seed_each-Unique new_id [] count rs h = h
seed_each-Unique new_id (c ∷ cs) count rs h =
    elim (Option-cases (first_where (has_alias c.alias) rs)) [
      | inl absent ↦
          let row : AliasRow = new_row (new_id c.alias) c in
          let added : (seed_each new_id (c ∷ cs) count rs).1
              ≡ (seed_each new_id cs (count + 1) (rs ++ (row ∷ []))).1 =
            ground (arith, absent) in
          subst Unique (sym added) (
            seed_each-Unique new_id cs (count + 1) (rs ++ (row ∷ []))
              (append-Unique rs row (first_where-All (has_alias c.alias) rs absent) h))
      | inr (r, found) ↦
          let same : (seed_each new_id (c ∷ cs) count rs).1 ≡ (seed_each new_id cs count rs).1 =
            ground (arith, found) in
          subst Unique (sym same) (seed_each-Unique new_id cs count rs h)
    ]

update_alias-Unique :
    (id : String) (update : AliasUpdate) (rs : List AliasRow)
    → Unique rs
    → Unique (update_alias id update rs).1
unfolding update_alias
update_alias-Unique id update rs h = elim (Option-cases (first_where (has_alias_id id) rs)) [
  | inl absent ↦
      let same : (update_alias id update rs).1 ≡ rs = ground (arith, absent) in
      subst Unique (sym same) h
  | inr (r, found) ↦
      let changed : (update_alias id update rs).1
          ≡ update_first (has_alias_id id) (with_update update) rs =
        ground (arith, found) in
      subst Unique (sym changed)
        (update_first-Unique (has_alias_id id) (with_update update) rs (λ s. refl) h)
]

delete_alias-Unique : (id : String) (rs : List AliasRow) → Unique rs → Unique (delete_alias id rs).1
unfolding delete_alias
delete_alias-Unique id rs h = elim (Option-cases (first_where (has_alias_id id) rs)) [
  | inl absent ↦
      let same : (delete_alias id rs).1 ≡ rs = ground (arith, absent) in subst Unique (sym same) h
  | inr (r, found) ↦
      let changed : (delete_alias id rs).1 ≡ remove_first (has_alias_id id) rs =
        ground (arith, found) in
      subst Unique (sym changed) (remove_first-Unique (has_alias_id id) rs h)
]

-- What is done to the table.
pub data Change : Type 0 where
  creates : String → AliasCreate → Change
  updates : String → AliasUpdate → Change
  deletes : String → Change
  uses : String → Change
  seeds : (String → String) → Change

abbrev run_change : Change → List AliasRow → List AliasRow
run_change (creates id create) rs = (create_alias id create rs).1
run_change (updates id update) rs = (update_alias id update rs).1
run_change (deletes id) rs = (delete_alias id rs).1
run_change (uses id) rs = increment_usage id rs
run_change (seeds new_id) rs = (seed_builtin_aliases new_id rs).1

abbrev pub run_changes : List Change → List AliasRow → List AliasRow
run_changes [] rs = rs
run_changes (c ∷ cs) rs = run_changes cs (run_change c rs)

run_change-Unique : (c : Change) (rs : List AliasRow) → Unique rs → Unique (run_change c rs)
unfolding increment_usage seed_builtin_aliases
run_change-Unique (creates id create) rs h = create_alias-Unique id create rs h
run_change-Unique (updates id update) rs h = update_alias-Unique id update rs h
run_change-Unique (deletes id) rs h = delete_alias-Unique id rs h
run_change-Unique (uses id) rs h =
    update_first-Unique (has_alias_id id) used_once_more rs (λ r. refl) h
run_change-Unique (seeds new_id) rs h = seed_each-Unique new_id builtin_aliases 0 rs h

-- Where no two rows have the same alias, this stays so through any creations, updates, deletions,
-- uses and seedings.
pub run_changes-Unique :
    (cs : List Change) (rs : List AliasRow) → Unique rs → Unique (run_changes cs rs)
run_changes-Unique [] rs h = h
run_changes-Unique (c ∷ cs) rs h =
    run_changes-Unique cs (run_change c rs) (run_change-Unique c rs h)

find_alias-append :
    (name : String) (rs : List AliasRow) (r : AliasRow)
    → All (λ s. has_alias r.alias s ≡ false) rs
    → r.is_active ≡ true
    → find_alias name (map resolved_by (rs ++ (r ∷ [])))
      ≡ (if r.alias == name then some (resolved_by r) else find_alias name (map resolved_by rs))
unfolding find_alias
find_alias-append name [] r other active = ground (arith, active)
find_alias-append name (s ∷ rs) r other active = ground (
  arith,
  other.0,
  string_eq.agrees_iff s.alias name,
  string_eq.agrees_iff r.alias name,
  string_eq.agrees_iff s.alias r.alias,
  find_alias-append name rs r other.1 active,
)

-- An alias that is created is found by the proxy from then on, and what it finds for any other name
-- is what it found before.
pub find_alias-create_alias :
    (id name : String) (create : AliasCreate) (rs : List AliasRow) (r : AliasRow)
    → (create_alias id create rs).0 ≡ answer r
    → find_alias name (map resolved_by (create_alias id create rs).1) ≡ (
        if create.alias == name then some (resolved_by r) else find_alias name (map resolved_by rs))
unfolding create_alias
find_alias-create_alias id name create rs r made = elim (Bool-cases (is_slug create.alias)) [
  | inr e ↦ absurd (ground (arith, e, made))
  | inl e ↦ elim (Option-cases (first_where (has_alias create.alias) rs)) [
    | inr (s, found) ↦ absurd (ground (arith, e, found, made))
    | inl absent ↦
        let same : new_row id create ≡ r = ground (arith, e, absent, made) in
        rw (e, absent)
          (find_alias-append name rs (new_row id create)
              (first_where-All (has_alias create.alias) rs absent) refl
            ∙ ap
                (λ (s : AliasRow).
                  if create.alias == name
                  then some (resolved_by s)
                  else find_alias name (map resolved_by rs))
                same)
  ]
]
