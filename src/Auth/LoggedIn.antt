-- ===== src/Auth/LoggedIn.antt =====
-- local_authenticate of auth.py: whom it lets in.
use mathlib.Core.Option.{some-injective}
use llm_sentinel.Prelude.{
  ℕ, ◌≡◌, refl, ap, subst, String, Bool, true, false, List, [], ◌∷◌, ◌++◌, none, some, arith,
  string_eq, Bool-cases, Option-cases, inl, inr, lookup,
}
use llm_sentinel.Prelude.Handler.{ok}
use llm_sentinel.Store.Ops.{get_value}
use llm_sentinel.Store.Laws.{delete_key_self}
use llm_sentinel.Auth.State.{
  LocalUser, Libraries, World, truthy, first_where, update_first, list_or, lockout_key, fail_key,
}
use llm_sentinel.Auth.Login.{
  record_auth_failure, local_authenticate, verify_password, is_active_user,
}

-- A row that a query finds stands in the table, fits the query, and is the one that is assigned to.
abbrev Found {ℓ} : {A : Type ℓ} → (A → Bool) → (A → A) → A → List A → Type ℓ
Found {A} p f x xs =
    (before : List A) × (after : List A) × (xs ≡ before ++ (x ∷ after))
    × (p x ≡ true)
    × (update_first p f xs ≡ before ++ (f x ∷ after))

first_where-Found {ℓ} :
    {A : Type ℓ} (p : A → Bool) (f : A → A) (x : A) (xs : List A)
    → first_where p xs ≡ some x
    → Found p f x xs
first_where-Found p f x [] h = absurd (cc)
first_where-Found {A} p f x (y ∷ ys) h = elim (Bool-cases (p y)) [
  | inl fits ↦
      let same : y ≡ x = some-injective y x (rw fits at h) in
      (
        [],
        ys,
        ap (λ (z : A). z ∷ ys) same,
        subst (λ (z : A). p z ≡ true) same fits,
        rw fits (ap (λ (z : A). f z ∷ ys) same),
      )
  | inr passes ↦
      let (before, after, there, fits, changed) = first_where-Found p f x ys (rw passes at h) in
      (
        y ∷ before,
        after,
        ap (λ (zs : List A). y ∷ zs) there,
        fits,
        rw passes (ap (λ (zs : List A). y ∷ zs) changed),
      )
]

verify_password-true :
    (lib : Libraries) (password : List ℕ) (hashed : String)
    → verify_password lib password hashed ≡ true
    → lib.checkpw password hashed ≡ some true
verify_password-true lib password hashed right = elim (Option-cases (lib.checkpw password hashed)) [
  | inl raised ↦ absurd (ground (arith, right, raised))
  | inr (matches, e) ↦ ground (arith, right, e)
]

-- Whoever is let in is an active user of that name, whose hash bcrypt matches with the password,
-- and gets that user's roles. No lock of the name is set; afterwards its failures are forgotten,
-- and nothing has changed in the users but the time of that user's last login.
pub local_authenticate-true :
    (lib : Libraries) (now : ℕ) (username : String) (password : List ℕ) (roles : List String)
    (w : World)
    → (local_authenticate lib now username password w).0 ≡ ok (true, roles)
    → let w' = (local_authenticate lib now username password w).1 in
      (truthy (get_value now (lockout_key username) w.store).0 ≡ false)
      × (lookup (fail_key username) w'.store ≡ none)
      × ((u : LocalUser) × (before : List LocalUser) × (after : List LocalUser) × (w.users
            ≡ before ++ (u ∷ after))
          × (w'.users ≡ before ++ (record u { last_login_at = some now } ∷ after))
          × (u.username ≡ username)
          × (u.is_active ≡ true)
          × (lib.checkpw password u.password_hash ≡ some true)
          × (roles ≡ list_or [] u.roles))
unfolding local_authenticate record_auth_failure
local_authenticate-true lib now username password roles w h =
    let locked = truthy (get_value now (lockout_key username) w.store).0 in
    elim (Bool-cases locked) [
      | inl is_locked ↦ absurd (ground (arith, h, is_locked))
      | inr open_still ↦ elim (Option-cases (first_where (is_active_user username) w.users)) [
        | inl missing ↦ absurd (ground (arith, h, open_still, missing))
        | inr (u, found) ↦ elim (Bool-cases (verify_password lib password u.password_hash)) [
          | inr wrong ↦ absurd (ground (arith, h, open_still, found, wrong))
          | inl right ↦
              let (before, after, there, fits, changed) =
                first_where-Found (is_active_user username)
                  (λ v. record v { last_login_at = some now }) u w.users found in
              rw (open_still, found, right)
                (
                  refl,
                  delete_key_self (fail_key username) _,
                  (
                    u,
                    before,
                    after,
                    there,
                    changed,
                    (string_eq.agrees_iff u.username username).0 (ground (arith, fits)),
                    ground (arith, fits),
                    verify_password-true lib password u.password_hash right,
                    ground (arith, h, open_still, found, right),
                  ),
                )
        ]
      ]
    ]
