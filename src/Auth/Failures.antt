-- ===== src/Auth/Failures.antt =====
-- The counter of failures and the lock of a user in the store (auth.py).
use llm_sentinel.Prelude.{
  ℕ, ◌+◌, ◌≤◌, ◌<◌, ◌≡◌, refl, ap, ◌∙◌, subst, String, true, false, Option, none, some, leb,
  string_eq, if◌then◌else◌, arith, lookup,
}
use llm_sentinel.Prelude.Text.{str}
use llm_sentinel.Prelude.Numeral.{int, int-str}
use llm_sentinel.Breaker.State.{seconds}
use llm_sentinel.Store.Entry.{text, Entry}
use llm_sentinel.Store.Ops.{
  Store, get_value, increment, expire, set_with_ttl, get_value_entry, increment_entry, expire_entry,
  at_key,
}
use llm_sentinel.Store.Laws.{at_key_self, get_value-set_with_ttl}
use llm_sentinel.Store.Others.{get_value-other, increment-other, expire-other}
use llm_sentinel.Auth.Keys.{fail_key-ne-lockout_key, lockout_key-ne-fail_key}
use llm_sentinel.Auth.State.{lockout_key, fail_key}

abbrev counter : ℕ → Option ℕ → Entry String
counter n e = record { value = text (str n); expires_at = e }

-- What the store holds between two failures: `n` of them, the last at `t`, and no lock.
pub record Failures (username : String) (n t : ℕ) (s : Store String) : Type 0 where
  counted : lookup (fail_key username) s ≡ some (counter n (some (t + seconds 900)))
  unlocked : lookup (lockout_key username) s ≡ none

-- A failure at this time will be the `n`-th.
pub record Counts (username : String) (now n : ℕ) (s : Store String) : Type 0 where
  expiry : Option ℕ
  counts : increment_entry now 1 (lookup (fail_key username) s) ≡ (some n, some (counter n expiry))
  unlocked : lookup (lockout_key username) s ≡ none

abbrev pub Locked : String → ℕ → Store String → Type 0
Locked username t s =
    (later : ℕ)
    → later ≤ t + seconds 900
    → (get_value later (lockout_key username) s).0 ≡ some (text "1")

pub Counts-none :
    (username : String) (now : ℕ) (s : Store String)
    → lookup (fail_key username) s ≡ none
    → lookup (lockout_key username) s ≡ none
    → Counts username now 1 s
unfolding increment_entry
Counts-none username now s h k = record {
  expiry = none;
  counts = ap (increment_entry now 1) h;
  unlocked = k;
}

increment_entry-alive :
    (now n lifetime : ℕ)
    → now ≤ lifetime
    → int (str n) ≡ some n
    → increment_entry now 1 (some (counter n (some lifetime)))
      ≡ (some (n + 1), some (counter (n + 1) (some lifetime)))
unfolding increment_entry
increment_entry-alive now n lifetime h e = ground (arith, h, e)

pub Counts-Failures :
    (username : String) (n t now : ℕ) (s : Store String)
    → n < 5
    → now ≤ t + seconds 900
    → Failures username n t s
    → Counts username now (n + 1) s
unfolding increment_entry
Counts-Failures username n t now s few soon f = record {
  expiry = some (t + seconds 900);
  counts =
      ap (increment_entry now 1) f.counted
      ∙ increment_entry-alive now n (t + seconds 900) soon (int-str n (omega arith));
  unlocked = f.unlocked;
}

-- The store in front of a failure's count, behind it, and behind the whole failure.
abbrev looked : String → ℕ → Store String → Store String
looked username now s = (get_value now (lockout_key username) s).1

abbrev pub recorded : String → ℕ → Store String → Store String
recorded username now s =
    (expire now (fail_key username) 900 (increment now (fail_key username) 1 s).1).1

abbrev pub failed : String → ℕ → ℕ → Store String → Store String
failed username now n s =
    if leb 5 n
    then set_with_ttl now (lockout_key username) "1" 900 (recorded username now s)
    else recorded username now s

module _ (username : String) (now n : ℕ) (s : Store String) (c : Counts username now n s) where
  pub increment-count : (increment now (fail_key username) 1 s).0 ≡ some n
  unfolding increment at_key
  increment-count = ap (λ p. p.0) c.counts

  recorded-counter :
      lookup (fail_key username) (recorded username now s)
      ≡ some (counter n (some (now + seconds 900)))
  unfolding expire increment expire_entry
  recorded-counter =
      at_key_self (fail_key username) (expire_entry now 900)
        (increment now (fail_key username) 1 s).1
      ∙ ap (λ o. (expire_entry now 900 o).1)
          (at_key_self (fail_key username) (increment_entry now 1) s ∙ ap (λ p. p.1) c.counts)

  recorded-unlocked : lookup (lockout_key username) (recorded username now s) ≡ none
  recorded-unlocked =
      expire-other (fail_key username) (lockout_key username)
        (fail_key-ne-lockout_key username username) now 900
        (increment now (fail_key username) 1 s).1
      ∙ increment-other (fail_key username) (lockout_key username)
          (fail_key-ne-lockout_key username username) now 1 s
      ∙ c.unlocked

  pub failed-Failures : n < 5 → Failures username n now (failed username now n s)
  failed-Failures few =
      let below : leb 5 n ≡ false = ground arith in
      subst (Failures username n now) (rw below refl)
        (record { counted = recorded-counter; unlocked = recorded-unlocked })

  pub failed-Locked : 5 ≤ n → Locked username now (failed username now n s)
  failed-Locked many later soon =
      let above : leb 5 n ≡ true = ground arith in
      ap
        (λ b.
          (get_value later (lockout_key username) (
            if b
            then set_with_ttl now (lockout_key username) "1" 900 (recorded username now s)
            else recorded username now s)).0)
        above
      ∙ get_value-set_with_ttl now later 900 (lockout_key username) "1" (recorded username now s)
      ∙ ground arith

-- To look for the lock changes nothing where there is none.
pub Counts-looked :
    (username : String) (now n : ℕ) (s : Store String)
    → Counts username now n s
    → Counts username now n (looked username now s)
unfolding get_value get_value_entry
Counts-looked username now n s c = record {
  expiry = c.expiry;
  counts =
      ap (increment_entry now 1) (
        get_value-other (lockout_key username) (fail_key username)
          (lockout_key-ne-fail_key username username) now s)
      ∙ c.counts;
  unlocked =
      at_key_self (lockout_key username) (get_value_entry now) s
      ∙ ap (λ o. (get_value_entry now o).1) c.unlocked;
}

pub unlocked-reads :
    (username : String) (now n : ℕ) (s : Store String)
    → Counts username now n s
    → (get_value now (lockout_key username) s).0 ≡ none
unfolding get_value get_value_entry at_key
unlocked-reads username now n s c = ap (λ o. (get_value_entry now o).0) c.unlocked
