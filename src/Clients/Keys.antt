-- ===== src/Clients/Keys.antt =====
-- Which keys are taken after a client has been created, deactivated, deleted or given a new key
-- (clients.py with get_current_user of auth.py).
use mathlib.Core.List.{map-append}
use llm_sentinel.Prelude.{
  ℕ, ◌≡◌, refl, sym, ap, ◌∙◌, subst, String, true, false, List, [], ◌∷◌, ◌++◌, none, some, arith,
  ◌==◌, string_eq, if◌then◌else◌, map, All, Bool-cases, Option-cases, inl, inr, beq_self,
}
use llm_sentinel.Prelude.Handler.{ok, raises}
use llm_sentinel.Auth.State.{
  Client, Libraries, AuthSettings, World, Request, first_where, update_first,
}
use llm_sentinel.Auth.Access.{owns_key, key_of, client_user, get_current_user}
use llm_sentinel.Catalog.Rows.{remove_first, is_found, first_where-new}
use llm_sentinel.Clients.Crud.{
  ClientRow, ClientCreate, has_client_id, client_row, create_client, delete_client, with_key,
  regenerate_api_key, ClientUpdate, with_update, update_client,
}

-- The world of auth.py with these rows.
abbrev pub with_rows : World → List ClientRow → World
with_rows w table = record w { clients = map (λ r. r.client) table }

-- Beside the first row of the client no row has the hash.
abbrev OnlyKey : String → String → List ClientRow → Type 0
OnlyKey client_id key_hash [] = Unit {0}
OnlyKey client_id key_hash (r ∷ rs) =
    if has_client_id client_id r
    then All (λ s. (s.client.api_key_hash == key_hash) ≡ false) rs
    else ((r.client.api_key_hash == key_hash) ≡ false) × OnlyKey client_id key_hash rs

module _ (lib : Libraries) (settings : AuthSettings) (now : ℕ) (request : Request) (w : World) where
  get_current_user-some :
      (table : List ClientRow) (c : Client)
      → (key_of request == "") ≡ false
      → first_where (owns_key (lib.sha256 (key_of request))) (map (λ r. r.client) table) ≡ some c
      → (get_current_user lib settings now request (with_rows w table)).0 ≡ ok (client_user c)
  unfolding get_current_user
  get_current_user-some table c given found = rw (given, found) refl

  get_current_user-none :
      (table : List ClientRow)
      → (key_of request == "") ≡ false
      → first_where (owns_key (lib.sha256 (key_of request))) (map (λ r. r.client) table) ≡ none
      → (get_current_user lib settings now request (with_rows w table)).0
        ≡ raises 401 "Invalid API key"
  unfolding get_current_user
  get_current_user-none table given absent = rw (given, absent) refl

  -- The key that is made for a client is taken for that client from then on, where no active client
  -- has its hash.
  pub get_current_user-create_client :
      (id plaintext : String) (create : ClientCreate) (table : List ClientRow)
      → key_of request ≡ plaintext
      → (plaintext == "") ≡ false
      → first_where (owns_key (lib.sha256 plaintext)) (map (λ r. r.client) table) ≡ none
      → (get_current_user lib settings now request
          (with_rows w (create_client lib.sha256 id plaintext now create table).1)).0
        ≡ ok (record {
          name = create.name;
          roles = create.roles;
          permissions = create.permissions;
          client_id = some id;
          is_api_client = true;
        })
  unfolding create_client
  get_current_user-create_client id plaintext create table key given fresh =
      let row = client_row id (lib.sha256 plaintext) now create in
      get_current_user-some (table ++ (row ∷ [])) row.client
        (subst (λ (k : String). (k == "") ≡ false) (sym key) given)
        (subst
          (λ (k : String).
            first_where (owns_key (lib.sha256 k))
              (map (λ (r : ClientRow). r.client) (table ++ (row ∷ [])))
            ≡ some row.client)
          (sym key)
          (ap (first_where (owns_key (lib.sha256 plaintext)))
              (map-append (λ (r : ClientRow). r.client) table (row ∷ []))
            ∙ first_where-new (owns_key (lib.sha256 plaintext))
                (map (λ (r : ClientRow). r.client) table) row.client fresh
                (ground (arith, beq_self (lib.sha256 plaintext)))))

owns_key-none :
    (key_hash : String) (table : List ClientRow)
    → All (λ s. (s.client.api_key_hash == key_hash) ≡ false) table
    → first_where (owns_key key_hash) (map (λ r. r.client) table) ≡ none
owns_key-none key_hash [] h = refl
owns_key-none key_hash (r ∷ rs) h = rw h.0 (owns_key-none key_hash rs h.1)

OnlyKey-remove :
    (client_id key_hash : String) (table : List ClientRow)
    → OnlyKey client_id key_hash table
    → is_found (first_where (has_client_id client_id) table) ≡ true
    → first_where
        (owns_key key_hash)
        (map (λ r. r.client) (remove_first (has_client_id client_id) table))
      ≡ none
OnlyKey-remove client_id key_hash [] only found = cc
OnlyKey-remove client_id key_hash (r ∷ rs) only found =
    elim (Bool-cases (has_client_id client_id r)) [
      | inl e ↦ rw e (owns_key-none key_hash rs (rw e at only))
      | inr e ↦
          let rest = rw e at only in
          rw e (rw rest.0 (OnlyKey-remove client_id key_hash rs rest.1 (ground (arith, e, found))))
    ]

OnlyKey-update :
    (client_id key_hash : String) (f : ClientRow → ClientRow) (table : List ClientRow)
    → ((r : ClientRow) → owns_key key_hash (f r).client ≡ false)
    → OnlyKey client_id key_hash table
    → is_found (first_where (has_client_id client_id) table) ≡ true
    → first_where
        (owns_key key_hash)
        (map (λ r. r.client) (update_first (has_client_id client_id) f table))
      ≡ none
OnlyKey-update client_id key_hash f [] refused only found = cc
OnlyKey-update client_id key_hash f (r ∷ rs) refused only found =
    elim (Bool-cases (has_client_id client_id r)) [
      | inl e ↦ rw e (rw (refused r) (owns_key-none key_hash rs (rw e at only)))
      | inr e ↦
          let rest = rw e at only in
          rw e (
            rw rest.0
              (OnlyKey-update client_id key_hash f rs refused rest.1 (ground (arith, e, found))))
    ]

module _ (lib : Libraries) (settings : AuthSettings) (now : ℕ) (request : Request) (w : World) where
  -- Where a client is the only one with its key, after it is deleted, after it is given a key with
  -- another hash, and after an update that makes it inactive, its key is refused with 401.
  pub get_current_user-old_key :
      (client_id plaintext : String) (u : ClientUpdate) (table : List ClientRow)
      → (key_of request == "") ≡ false
      → OnlyKey client_id (lib.sha256 (key_of request)) table
      → is_found (first_where (has_client_id client_id) table) ≡ true
      → (lib.sha256 plaintext == lib.sha256 (key_of request)) ≡ false
      → u.is_active ≡ some false
      → ((get_current_user lib settings now request
            (with_rows w (delete_client client_id table).1)).0
          ≡ raises 401 "Invalid API key")
        × (((get_current_user lib settings now request
                (with_rows w (regenerate_api_key lib.sha256 plaintext client_id table).1)).0
              ≡ raises 401 "Invalid API key")
            × ((get_current_user lib settings now request
                  (with_rows w (update_client client_id u table).1)).0
                ≡ raises 401 "Invalid API key"))
  unfolding delete_client regenerate_api_key update_client
  get_current_user-old_key client_id plaintext u table given only found differ inactive =
      let key_hash = lib.sha256 (key_of request) in
      elim (Option-cases (first_where (has_client_id client_id) table)) [
        | inl absent ↦ absurd (ground (arith, absent, found))
        | inr (r, e) ↦
            let refuses : (rows got : List ClientRow)
                → got ≡ rows
                → first_where (owns_key key_hash) (map (λ (s : ClientRow). s.client) rows) ≡ none
                → (get_current_user lib settings now request (with_rows w got)).0
                  ≡ raises 401 "Invalid API key" =
              λ rows got same h. get_current_user-none lib settings now request w got given (
                ap
                  (λ (rows : List ClientRow).
                    first_where (owns_key key_hash) (map (λ (s : ClientRow). s.client) rows))
                  same
                ∙ h) in
            let updated : (f : ClientRow → ClientRow)
                → ((s : ClientRow) → owns_key key_hash (f s).client ≡ false)
                → first_where (owns_key key_hash) (
                    map (λ (s : ClientRow). s.client)
                      (update_first (has_client_id client_id) f table))
                  ≡ none =
              λ f h. OnlyKey-update client_id key_hash f table h only found in
            (
              refuses (remove_first (has_client_id client_id) table)
                  (delete_client client_id table).1 (ground (arith, e))
                  (OnlyKey-remove client_id key_hash table only found),
              (
                refuses
                    (update_first (has_client_id client_id) (with_key (lib.sha256 plaintext)) table)
                    (regenerate_api_key lib.sha256 plaintext client_id table).1 (ground (arith, e))
                    (updated (with_key (lib.sha256 plaintext)) (λ s. rw differ refl)),
                refuses (update_first (has_client_id client_id) (with_update u) table)
                    (update_client client_id u table).1 (ground (arith, e))
                    (updated (with_update u) (λ s. rw inactive (ground arith))),
              ),
            )
      ]
