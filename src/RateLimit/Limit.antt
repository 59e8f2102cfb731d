-- ===== src/RateLimit/Limit.antt =====
-- What the sliding window of rate_limiter.py guarantees over a run of requests.
use llm_sentinel.Prelude.{
  ℕ, ◌+◌, ◌-◌, ◌≤◌, ◌<◌, ◌≡◌, refl, sym, ap, subst, String, Bool, true, false, List, [], ◌∷◌, none,
  arith, string_eq, lookup, length, All, All-map, All-append, inl, length-select-le, ltb,
}
use llm_sentinel.Breaker.State.{seconds}
use llm_sentinel.Store.Ops.{Store}
use llm_sentinel.RateLimit.Window.{
  Stamp, stamp_eq, window, retry_after, sliding_window_check, check_entry,
}
use llm_sentinel.RateLimit.Scored.{after, after-after, Keeps, Follows, logged}
use llm_sentinel.RateLimit.Admitted.{sliding_window_check-entry, check_entry-Keeps}

-- The requests that are let through, of a run at one key, behind those of `log`.
abbrev pub admit : String → ℕ → List Stamp → List Stamp → Store Stamp → List Stamp
admit key limit [] log s = log
admit key limit (r ∷ rs) log s =
    let (answer, s') = sliding_window_check key limit r s in
    admit key limit rs (logged answer.0 r log) s'

-- Requests in the order of time, no two by one task in one microsecond, and none in the first minute
-- of the clock.
abbrev pub InOrder : List Stamp → Type 0
InOrder [] = Unit
InOrder (r ∷ rs) = (seconds window ≤ r.time) × All (λ x. Follows x r) rs × InOrder rs

logged-All :
    (P : Stamp → Type 0) (b : Bool) (r : Stamp) (log : List Stamp)
    → P r
    → All P log
    → All P (logged b r log)
logged-All P true r log h a = All-append P log (r ∷ []) a (h, tt)
logged-All P false r log h a = a

pub Follows-logged :
    (b : Bool) (r : Stamp) (log rs : List Stamp)
    → All (λ x. Follows x r) rs
    → All (λ x. All (Follows x) log) rs
    → All (λ x. All (Follows x) (logged b r log)) rs
Follows-logged b r log [] f a = tt
Follows-logged b r log (x ∷ rs) f a =
    (logged-All (Follows x) b r log f.0 a.0, Follows-logged b r log rs f.1 a.1)

admit-few :
    (key : String) (limit t c : ℕ) (rs log : List Stamp) (s : Store Stamp)
    → InOrder rs
    → All (λ x. x.time ≤ t) rs
    → All (λ x. c ≤ x.time - seconds window) rs
    → All (λ x. All (Follows x) log) rs
    → c ≤ t - seconds window
    → Keeps limit c log (lookup key s)
    → length (after (t - seconds window) (admit key limit rs log s)) ≤ limit
admit-few key limit t c [] log s o u l f h k = omega (
  arith,
  ap (λ (l : List Stamp). length l) (after-after c (t - seconds window) log h),
  length-select-le (λ x. ltb (t - seconds window) x.time) (after c log),
  k.few,
)
admit-few key limit t c (r ∷ rs) log s o u l f h k =
    let step = check_entry-Keeps limit c r log (lookup key s) l.0 o.0 f.0 k in
    let (e, stored) = sliding_window_check-entry key limit r s in
    let answer = (sliding_window_check key limit r s).0 in
    admit-few key limit t (r.time - seconds window) rs (logged answer.0 r log)
      (sliding_window_check key limit r s).1 o.2 u.1
      (All-map (λ x. Follows x r) (λ x. r.time - seconds window ≤ x.time - seconds window)
        (λ x g. omega arith) rs o.1)
      (Follows-logged answer.0 r log rs o.1 f.1) (omega arith)
      (subst
        (λ b.
          Keeps limit (r.time - seconds window) (logged b r log)
            (lookup key (sliding_window_check key limit r s).1))
        (sym (ap (λ (p : Bool × ℕ). p.0) e))
        (subst
          (Keeps limit (r.time - seconds window)
            (logged (check_entry limit r (lookup key s)).0.0 r log))
          (sym stored) step))

pub All-empty : (rs : List Stamp) → All (λ x. All (Follows x) []) rs
All-empty [] = tt
All-empty (x ∷ rs) = (tt, All-empty rs)

pub All-zero : (rs : List Stamp) → All (λ x. 0 ≤ x.time - seconds window) rs
All-zero [] = tt
All-zero (x ∷ rs) = (omega arith, All-zero rs)

-- From a store without the key, over any run of requests at one key in the order of time, no two by
-- one task at one time and none in the first minute of the clock, at most `limit` of those in the
-- minute up to any later time have been let through.
pub admit-limit :
    (key : String) (limit t : ℕ) (rs : List Stamp) (s : Store Stamp)
    → lookup key s ≡ none
    → InOrder rs
    → All (λ x. x.time ≤ t) rs
    → length (after (t - seconds window) (admit key limit rs [] s)) ≤ limit
admit-limit key limit t rs s e o u =
    admit-few key limit t 0 rs [] s o u (All-zero rs) (All-empty rs) (omega arith)
      (record { few = omega arith; stored = inl (e, refl) })

-- Where the oldest request that counts is not later than now, the wait is between 1 and 61 seconds,
-- and at its end that request has left the window.
retry_after_lem :
    (now : ℕ) (m : Stamp × ℕ) (ms : List (Stamp × ℕ))
    → m.0.time ≤ now
    → (1 ≤ retry_after now (m ∷ ms))
      × (retry_after now (m ∷ ms) ≤ window + 1)
      × (m.0.time + seconds window < now + seconds (retry_after now (m ∷ ms)))
unfolding retry_after
retry_after_lem now m ms h = omega arith
