-- ===== src/RateLimit/Admitted.antt =====
-- One check of rate_limiter.py against the log of the requests that were let through.
use llm_sentinel.Prelude.{
  ℕ, ◌+◌, ◌-◌, ◌≤◌, ◌<◌, ◌≡◌, inl, inr, refl, sym, ap, ◌∙◌, subst, String, Bool, true, false, List,
  [], ◌∷◌, ◌++◌, Option, none, some, arith, leb, ltb, ◌==◌, string_eq, if◌then◌else◌, Dict, lookup,
  length, select-append, All, All-map, All-append, All-select, length-select-le, Bool-cases,
  length-append,
}
use llm_sentinel.Breaker.State.{seconds}
use llm_sentinel.Store.Entry.{Entry, sorted_set}
use llm_sentinel.Store.Ops.{
  Store, zremrangebyscore, zrangebyscore, zadd, zremrangebyscore_entry, zrangebyscore_entry,
  zadd_entry, expire_entry,
}
use llm_sentinel.Store.Laws.{
  zremrangebyscore_self, zrangebyscore-0, zrangebyscore_self, zadd_self, expire_self,
}
use llm_sentinel.RateLimit.Window.{
  Stamp, stamp_eq, window, retry_after, sliding_window_check, check_entry,
}
use llm_sentinel.RateLimit.Scored.{
  scored, after, after-after, scored-after, insert-new, Keeps, Follows, counted, length-counted,
  logged, after-window,
}

-- The check on the store is the check on the entry of its key.
pub sliding_window_check-entry :
    (key : String) (limit : ℕ) (r : Stamp) (s : Store Stamp)
    → ((sliding_window_check key limit r s).0 ≡ (check_entry limit r (lookup key s)).0)
      × (lookup key (sliding_window_check key limit r s).1 ≡ (check_entry limit r (lookup key s)).1)
unfolding sliding_window_check check_entry
sliding_window_check-entry key limit r s =
    let now = r.time in
    let window_start = now - seconds window in
    let s1 = (zremrangebyscore key 0 window_start s).1 in
    let s2 = (zrangebyscore now key window_start now s1).1 in
    let s3 = (zadd now key ((r, now) ∷ []) s2).1 in
    let e1 = zremrangebyscore_self key 0 window_start s in
    let e2 = zrangebyscore-0 now key window_start now s1 in
    let e3 = zrangebyscore_self now key window_start now s1 in
    let e4 = zadd_self now key ((r, now) ∷ []) s2 in
    let e5 = expire_self now key (window + 10) s3 in ground (arith, e1, e2, e3, e4, e5)

abbrev pub entry : List Stamp → ℕ → Entry Stamp
entry xs lifetime = record { value = sorted_set (scored xs); expires_at = some lifetime }

abbrev Answer : Type 0
Answer = (Bool × ℕ) × Option (Entry Stamp)

-- The answer on an entry that holds the stamps `xs` of the window.
abbrev pub answer : ℕ → Stamp → List Stamp → ℕ → Bool → Answer
answer limit r xs lifetime denied =
    if denied
    then ((false, retry_after r.time (counted r xs)), some (entry xs lifetime))
    else ((true, 0), some (entry (xs ++ (r ∷ [])) (r.time + seconds (window + 10))))

abbrev KeepsAnswer : ℕ → Stamp → List Stamp → Answer → Type 0
KeepsAnswer limit r log p = Keeps limit (r.time - seconds window) (logged p.0.0 r log) p.1

zrem_live :
    (d c lifetime : ℕ) (log : List Stamp)
    → c ≤ d
    → (zremrangebyscore_entry 0 d (some (entry (after c log) lifetime))).1
      ≡ some (entry (after d log) lifetime)
unfolding zremrangebyscore_entry
zrem_live d c lifetime log h =
    ap (λ (z : Dict Stamp ℕ). some (record { value = sorted_set z; expires_at = some lifetime }))
      (scored-after d (after c log) ∙ ap scored (after-after c d log h))

zrange_live :
    (r : Stamp) (lifetime : ℕ) (xs : List Stamp)
    → r.time ≤ lifetime
    → zrangebyscore_entry r.time (r.time - seconds window) r.time (some (entry xs lifetime))
      ≡ (counted r xs, some (entry xs lifetime))
unfolding zrangebyscore_entry
zrange_live r lifetime xs l =
    let open_still : ltb lifetime r.time ≡ false = ground arith in rw open_still refl

zadd_live :
    (r : Stamp) (lifetime : ℕ) (xs : List Stamp)
    → r.time ≤ lifetime
    → All (λ x. (x == r) ≡ false) xs
    → (expire_entry r.time
        (window + 10)
        (zadd_entry r.time ((r, r.time) ∷ []) (some (entry xs lifetime))).1).1
      ≡ some (entry (xs ++ (r ∷ [])) (r.time + seconds (window + 10)))
unfolding zadd_entry expire_entry
zadd_live r lifetime xs l a = ground (arith, insert-new r xs a)

pub check_entry_live_lem :
    (limit : ℕ) (r : Stamp) (log : List Stamp) (c lifetime : ℕ)
    → c ≤ r.time - seconds window
    → r.time ≤ lifetime
    → All (Follows r) log
    → let xs = after (r.time - seconds window) log in
      check_entry limit r (some (entry (after c log) lifetime))
      ≡ answer limit r xs lifetime (leb limit (length (counted r xs)))
unfolding check_entry
check_entry_live_lem limit r log c lifetime h l a =
    let d = r.time - seconds window in
    let xs = after d log in
    let new : All (λ x. (x == r) ≡ false) xs =
      All-select (λ x. (x == r) ≡ false) (λ x. ltb d x.time) log
        (All-map (Follows r) (λ x. (x == r) ≡ false) (λ x f. f.1) log a) in
    ground (
      arith,
      zrem_live d c lifetime log h,
      zrange_live r lifetime xs l,
      zadd_live r lifetime xs l new,
    )

after-append :
    (r : Stamp) (log : List Stamp)
    → seconds window ≤ r.time
    → after (r.time - seconds window) (log ++ (r ∷ []))
      ≡ after (r.time - seconds window) log ++ (r ∷ [])
after-append r log w =
    select-append (λ x. ltb (r.time - seconds window) x.time) log (r ∷ [])
    ∙ ap (◌++◌ (after (r.time - seconds window) log)) (ground arith)

lifetimes :
    (r : Stamp) (log : List Stamp)
    → All (Follows r) log
    → All (λ x. x.time + seconds (window + 10) ≤ r.time + seconds (window + 10)) (log ++ (r ∷ []))
lifetimes r log a =
    All-append (λ x. x.time + seconds (window + 10) ≤ r.time + seconds (window + 10)) log (r ∷ [])
      (All-map (Follows r) (λ x. x.time + seconds (window + 10) ≤ r.time + seconds (window + 10))
        (λ x f. omega arith) log a)
      (omega arith, tt)

-- A check over an entry that is still alive.
check_entry_live :
    (limit : ℕ) (r : Stamp) (log : List Stamp) (c lifetime : ℕ)
    → c ≤ r.time - seconds window
    → seconds window ≤ r.time
    → All (Follows r) log
    → length (after c log) ≤ limit
    → r.time ≤ lifetime
    → All (λ x. x.time + seconds (window + 10) ≤ lifetime) log
    → KeepsAnswer limit r log (check_entry limit r (some (entry (after c log) lifetime)))
check_entry_live limit r log c lifetime h w a few l keeps =
    let d = r.time - seconds window in
    let xs = after d log in
    let count : length (counted r xs) ≡ length xs =
      length-counted r xs (after-window r c log h a) in
    subst (KeepsAnswer limit r log) (sym (check_entry_live_lem limit r log c lifetime h l a))
      (elim (Bool-cases (leb limit (length (counted r xs)))) [
        | inl t ↦
            subst (λ b. KeepsAnswer limit r log (answer limit r xs lifetime b)) (sym t)
              (record {
                few = omega (
                  arith,
                  ap (λ (l : List Stamp). length l) (after-after c d log h),
                  length-select-le (λ x. ltb d x.time) (after c log),
                );
                stored = inr (lifetime, refl, keeps);
              })
        | inr t ↦
            subst (λ b. KeepsAnswer limit r log (answer limit r xs lifetime b)) (sym t)
              (record {
                few =
                    let room : length (counted r xs) < limit = ground arith in
                    omega (
                      arith,
                      ap (λ (l : List Stamp). length l) (after-append r log w),
                      length-append xs (r ∷ []),
                    );
                stored = inr (
                  r.time + seconds (window + 10),
                  ap (λ (l : List Stamp). some (entry l (r.time + seconds (window + 10))))
                      (sym (after-append r log w)),
                  lifetimes r log a,
                );
              })
      ])

abbrev answer_gone : Stamp → Bool → Answer
answer_gone r denied =
    if denied
    then ((false, 1), none)
    else ((true, 0), some (entry (r ∷ []) (r.time + seconds (window + 10))))

pub check_entry_gone_lem :
    (limit : ℕ) (r : Stamp) → check_entry limit r none ≡ answer_gone r (leb limit 0)
unfolding check_entry zremrangebyscore_entry zrangebyscore_entry zadd_entry expire_entry retry_after
check_entry_gone_lem limit r = ground arith

-- A check where nothing of the window is stored.
check_entry_gone :
    (limit : ℕ) (r : Stamp) (log : List Stamp)
    → seconds window ≤ r.time
    → All (Follows r) log
    → after (r.time - seconds window) log ≡ []
    → KeepsAnswer limit r log (check_entry limit r none)
check_entry_gone limit r log w a e =
    let log_end = after-append r log w ∙ ap (λ (l : List Stamp). l ++ (r ∷ [])) e in
    subst (KeepsAnswer limit r log) (sym (check_entry_gone_lem limit r))
      (elim (Bool-cases (leb limit 0)) [
        | inl t ↦
            subst (λ b. KeepsAnswer limit r log (answer_gone r b)) (sym t)
              (record {
                few = omega (arith, ap (λ (l : List Stamp). length l) e);
                stored = inl (refl, e);
              })
        | inr t ↦
            subst (λ b. KeepsAnswer limit r log (answer_gone r b)) (sym t)
              (record {
                few =
                    let room : 0 < limit = ground arith in
                    omega (arith, ap (λ (l : List Stamp). length l) log_end);
                stored = inr (
                  r.time + seconds (window + 10),
                  ap (λ (l : List Stamp). some (entry l (r.time + seconds (window + 10))))
                      (sym log_end),
                  lifetimes r log a,
                );
              })
      ])

-- An entry whose lifetime is over is taken for a missing one.
pub check_entry_expired :
    (limit : ℕ) (r : Stamp) (log : List Stamp) (c lifetime : ℕ)
    → lifetime < r.time
    → check_entry limit r (some (entry (after c log) lifetime)) ≡ check_entry limit r none
unfolding check_entry zremrangebyscore_entry zrangebyscore_entry
check_entry_expired limit r log c lifetime l = ground arith

pub after-expired :
    (r : Stamp) (lifetime : ℕ) (log : List Stamp)
    → lifetime < r.time
    → All (λ x. x.time + seconds (window + 10) ≤ lifetime) log
    → after (r.time - seconds window) log ≡ []
after-expired r lifetime [] l a = refl
after-expired r lifetime (x ∷ xs) l a = ground (arith, after-expired r lifetime xs l a.1)

-- Each check keeps the store in step with the log of what was let through.
pub check_entry-Keeps :
    (limit c : ℕ) (r : Stamp) (log : List Stamp) (o : Option (Entry Stamp))
    → c ≤ r.time - seconds window
    → seconds window ≤ r.time
    → All (Follows r) log
    → Keeps limit c log o
    → KeepsAnswer limit r log (check_entry limit r o)
check_entry-Keeps limit c r log o h w a k = elim k.stored [
  | inl (gone, e) ↦
      subst (λ p. KeepsAnswer limit r log (check_entry limit r p)) (sym gone)
        (check_entry_gone limit r log w a (
          sym (after-after c (r.time - seconds window) log h)
          ∙ ap (after (r.time - seconds window)) e))
  | inr (lifetime, there, keeps) ↦
      subst (λ p. KeepsAnswer limit r log (check_entry limit r p)) (sym there)
        (elim (Bool-cases (ltb lifetime r.time)) [
          | inl t ↦
              subst (KeepsAnswer limit r log)
                (sym (check_entry_expired limit r log c lifetime (ground arith)))
                (check_entry_gone limit r log w a
                  (after-expired r lifetime log (ground arith) keeps))
          | inr t ↦ check_entry_live limit r log c lifetime h w a k.few (ground arith) keeps
        ])
]
