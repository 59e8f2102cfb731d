-- ===== src/Auth/Bootstrap.antt =====
-- `_create_admin_async` of bootstrap.py: the admin user is made from the entries of a console. The test
-- that the query makes of the JSON column of the roles is an argument, and the name is stripped.
use llm_sentinel.Prelude.{
  ℕ, ◌≡◌, refl, String, Bool, true, false, not, ◌&&◌, List, [], ◌∷◌, ◌++◌, Option, none, some,
  arith, ◌==◌, string_eq, if◌then◌else◌, All, beq_self,
}
use llm_sentinel.Prelude.Handler.{ok}
use llm_sentinel.Store.Ops.{get_value}
use llm_sentinel.Security.Password.{validate_password, same_text}
use llm_sentinel.Auth.State.{
  LocalUser, Libraries, AuthSettings, World, first_where, truthy, lockout_key,
}
use llm_sentinel.Auth.Login.{is_user, is_active_user, verify_password, local_authenticate}
use llm_sentinel.Catalog.Rows.{first_where-new, is_found}

-- What is typed as the password, and as its confirmation.
abbrev Entry : Type 0
Entry = List ℕ × List ℕ

abbrev is_taken : Libraries → AuthSettings → Entry → Bool
is_taken lib settings (password, confirm) =
    same_text password confirm
    && (validate_password lib.is_decimal lib.lower settings.common_passwords password
        settings.password_min_length).0

-- The `while True` over the entries; `none` is that it still asks when they end.
unfoldable pub ask_password : Libraries → AuthSettings → List Entry → Option (List ℕ)
ask_password lib settings [] = none
ask_password lib settings ((password, confirm) ∷ entries) =
    let again = ask_password lib settings entries in
    if not (same_text password confirm)
    then again
    else if (validate_password lib.is_decimal lib.lower settings.common_passwords password
        settings.password_min_length).0
    then some password
    else again

pub data Bootstrap : Type 0 where
  created : Bootstrap
  admin_exists name_empty still_asking name_taken : Bootstrap

abbrev admin_user : String → String → String → LocalUser
admin_user id username hashed = record {
  id = id;
  username = username;
  password_hash = hashed;
  roles = some ("admin" ∷ []);
  is_active = true;
  last_login_at = none;
}

-- A name that is taken breaks the unique column, and nothing is written.
unfoldable pub create_admin :
    Libraries
    → AuthSettings
    → (LocalUser → Bool)
    → String
    → String
    → List Entry
    → World
    → Bootstrap × World
create_admin lib settings is_admin id username entries w =
    if is_found (first_where is_admin w.users)
    then (admin_exists, w)
    else if username == ""
    then (name_empty, w)
    else elim (ask_password lib settings entries) [
      | none ↦ (still_asking, w)
      | some password ↦
          if is_found (first_where (is_user username) w.users) then (name_taken, w) else (
            created,
            record w {
              users = w.users ++ (admin_user id username (lib.hashpw password) ∷ []);
              history =
                  w.history ++ (record { user_id = id; password_hash = lib.hashpw password } ∷ []);
            },
          )
    ]

-- The loop ends at the first entry that is taken, however many are not.
ask_password-ends :
    (lib : Libraries) (settings : AuthSettings) (refused : List Entry) (password confirm : List ℕ)
    (entries : List Entry)
    → All (λ e. is_taken lib settings e ≡ false) refused
    → is_taken lib settings (password, confirm) ≡ true
    → ask_password lib settings (refused ++ ((password, confirm) ∷ entries)) ≡ some password
unfolding ask_password
ask_password-ends lib settings [] password confirm entries h taken = ground (arith, taken)
ask_password-ends lib settings ((p, c) ∷ refused) password confirm entries h taken =
    ground (arith, h.0, ask_password-ends lib settings refused password confirm entries h.1 taken)

inactive-none :
    (username : String) (users : List LocalUser)
    → first_where (is_user username) users ≡ none
    → first_where (is_active_user username) users ≡ none
inactive-none username [] h = refl
inactive-none username (u ∷ users) h = ground (arith, h, inactive-none username users)

local_authenticate-right :
    (lib : Libraries) (now : ℕ) (username : String) (password : List ℕ) (u : LocalUser) (w : World)
    (roles : List String)
    → truthy (get_value now (lockout_key username) w.store).0 ≡ false
    → first_where (is_active_user username) w.users ≡ some u
    → verify_password lib password u.password_hash ≡ true
    → u.roles ≡ some roles
    → (local_authenticate lib now username password w).0 ≡ ok (true, roles)
unfolding local_authenticate
local_authenticate-right lib now username password u w roles free found right given =
    ground (arith, free, found, right, given)

-- Where there is no admin yet, a name is given that nobody has, and bcrypt verifies what it hashes:
-- the setup ends at the first entry that is confirmed and valid, whatever entries are refused before
-- it, and with its password the new user, where not locked out, logs in as an admin.
pub create_admin-local_authenticate :
    (lib : Libraries) (settings : AuthSettings) (is_admin : LocalUser → Bool) (now : ℕ)
    (id username : String) (refused : List Entry) (password confirm : List ℕ) (entries : List Entry)
    (w : World)
    → first_where is_admin w.users ≡ none
    → (username == "") ≡ false
    → first_where (is_user username) w.users ≡ none
    → All (λ e. is_taken lib settings e ≡ false) refused
    → is_taken lib settings (password, confirm) ≡ true
    → lib.checkpw password (lib.hashpw password) ≡ some true
    → truthy (get_value now (lockout_key username) w.store).0 ≡ false
    → let (outcome, w') =
        create_admin lib settings is_admin id username
          (refused ++ ((password, confirm) ∷ entries))
          w in
      (outcome ≡ created)
      × ((local_authenticate lib now username password w').0 ≡ ok (true, "admin" ∷ []))
unfolding create_admin
create_admin-local_authenticate lib settings is_admin now id username refused password confirm
      entries w no_admin named free bad taken hashes unlocked =
    let asked = ask_password-ends lib settings refused password confirm entries bad taken in
    let user = admin_user id username (lib.hashpw password) in
    rw (no_admin, named, asked, free)
      (
        refl,
        local_authenticate-right lib now username password user _ ("admin" ∷ []) unlocked
            (first_where-new (is_active_user username) w.users user
              (inactive-none username w.users free) (ground (arith, beq_self username)))
            (ground (arith, hashes)) refl,
      )
