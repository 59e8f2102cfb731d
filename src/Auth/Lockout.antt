-- ===== src/Auth/Lockout.antt =====
-- local_authenticate of auth.py: the lock after five failures.
use llm_sentinel.Prelude.{
  ℕ, ◌+◌, ◌≤◌, ◌≡◌, refl, sym, ◌∙◌, subst, String, Bool, true, false, not, List, [], ◌∷◌, none,
  some, string_eq, arith, Option-cases, inl, inr, lookup, All, length,
}
use llm_sentinel.Prelude.Handler.{Result, ok, raises, pure, continue}
use llm_sentinel.Breaker.State.{seconds}
use llm_sentinel.Store.Ops.{get_value}
use llm_sentinel.Auth.State.{LocalUser, Libraries, World, first_where, lockout_key, fail_key}
use llm_sentinel.Auth.Failures.{
  Counts, Locked, Counts-none, Counts-Failures, Counts-looked, failed, failed-Failures,
  failed-Locked, increment-count, unlocked-reads,
}
use llm_sentinel.Auth.Login.{
  record_auth_failure, local_authenticate, verify_password, is_active_user,
}

-- An attempt fails whose user is missing or whose password is wrong.
abbrev pub fails : Libraries → String → List LocalUser → List ℕ → Bool
fails lib username users password = elim (first_where (is_active_user username) users) [
  | none ↦ true
  | some u ↦ not (verify_password lib password u.password_hash)
]

abbrev Fails : Libraries → String → List LocalUser → List ℕ → Type 0
Fails lib username users password = fails lib username users password ≡ true

abbrev looked : String → ℕ → World → World
looked username now w = record w { store = (get_value now (lockout_key username) w.store).1 }

-- What ends in an answer leaves the state of what came before.
continue-state : {A B : Type 0} (b : B) (p : Result A × World) → (continue (λ _. pure b) p).1 ≡ p.1
continue-state b (ok a, w) = refl
continue-state b (raises status detail, w) = refl

-- The failure of a user who is not locked is recorded.
local_authenticate-Fails :
    (lib : Libraries) (now n : ℕ) (username : String) (password : List ℕ) (w : World)
    → Fails lib username w.users password
    → Counts username now n w.store
    → (local_authenticate lib now username password w).1
      ≡ (record_auth_failure now username (looked username now w)).1
unfolding local_authenticate
local_authenticate-Fails lib now n username password w bad c =
    let unlocked = unlocked-reads username now n w.store c in
    elim (Option-cases (first_where (is_active_user username) w.users)) [
      | inl missing ↦
          rw (unlocked, missing)
            (continue-state (false, []) (record_auth_failure now username (looked username now w)))
      | inr (u, found) ↦
          let wrong : verify_password lib password u.password_hash ≡ false =
            ground (arith, bad, found) in
          rw (unlocked, found, wrong)
            (continue-state (false, []) (record_auth_failure now username (looked username now w)))
    ]

record_auth_failure-failed :
    (now n : ℕ) (username : String) (w : World)
    → Counts username now n w.store
    → (record_auth_failure now username w).1 ≡ record w { store = failed username now n w.store }
unfolding record_auth_failure
record_auth_failure-failed now n username w c =
    let count = increment-count username now n w.store c in ground (arith, count)

-- One attempt that fails: the users stay as they are.
step :
    (lib : Libraries) (now n : ℕ) (username : String) (password : List ℕ) (w : World)
    → Fails lib username w.users password
    → Counts username now n w.store
    → (local_authenticate lib now username password w).1
      ≡ record w { store = failed username now n (looked username now w).store }
step lib now n username password w bad c =
    local_authenticate-Fails lib now n username password w bad c
    ∙ record_auth_failure-failed now n username (looked username now w)
        (Counts-looked username now n w.store c)

-- Attempts at their times, one after the other.
abbrev pub attempt : Libraries → String → List (ℕ × List ℕ) → World → World
attempt lib username [] w = w
attempt lib username ((t, password) ∷ rest) w =
    attempt lib username rest (local_authenticate lib t username password w).1

-- No attempt comes more than 15 minutes after the one before it.
abbrev Close : ℕ → List (ℕ × List ℕ) → Type 0
Close t [] = Unit
Close t ((u, password) ∷ rest) = (u ≤ t + seconds 900) × Close u rest

abbrev last_time : ℕ → List (ℕ × List ℕ) → ℕ
last_time t [] = t
last_time t ((u, password) ∷ rest) = last_time u rest

attempt-Locked :
    (lib : Libraries) (username : String) (t n : ℕ) (password : List ℕ) (rest : List (ℕ × List ℕ))
    (w : World)
    → n + length rest ≡ 5
    → Counts username t n w.store
    → Fails lib username w.users password
    → All (λ a. Fails lib username w.users a.1) rest
    → Close t rest
    → Locked username (last_time t rest) (attempt lib username ((t, password) ∷ rest) w).store
attempt-Locked lib username t n password [] w five c bad all close =
    subst (λ v. Locked username t v.store) (sym (step lib t n username password w bad c))
      (failed-Locked username t n (looked username t w).store (Counts-looked username t n w.store c)
        (omega arith))
attempt-Locked lib username t n password ((u, next) ∷ rest) w five c bad all close =
    let w' = record w { store = failed username t n (looked username t w).store } in
    subst
      (λ v. Locked username (last_time u rest) (attempt lib username ((u, next) ∷ rest) v).store)
      (sym (step lib t n username password w bad c))
      (attempt-Locked lib username u (n + 1) next rest w' (omega arith)
        (Counts-Failures username n t u w'.store (omega arith) close.0 (
          failed-Failures username t n (looked username t w).store
            (Counts-looked username t n w.store c) (omega arith)))
        all.0 all.1 close.1)

-- From a store without failures of a user, after five failed attempts, each at most 15 minutes
-- after the one before it, every attempt in the next 15 minutes is refused, also with the right
-- password.
pub local_authenticate-locked :
    (lib : Libraries) (username : String) (t later : ℕ) (wrong right : List ℕ)
    (rest : List (ℕ × List ℕ)) (w : World)
    → length rest ≡ 4
    → lookup (fail_key username) w.store ≡ none
    → lookup (lockout_key username) w.store ≡ none
    → Fails lib username w.users wrong
    → All (λ a. Fails lib username w.users a.1) rest
    → Close t rest
    → later ≤ last_time t rest + seconds 900
    → (local_authenticate lib later username right (attempt lib username ((t, wrong) ∷ rest) w)).0
      ≡ ok (false, [])
unfolding local_authenticate
local_authenticate-locked lib username t later wrong right rest w four no_failures no_lock bad all
      close soon =
    let locked =
      attempt-Locked lib username t 1 wrong rest w (omega arith)
        (Counts-none username t w.store no_failures no_lock) bad all close later soon in
    rw locked refl
