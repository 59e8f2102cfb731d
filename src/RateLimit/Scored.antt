-- ===== src/RateLimit/Scored.antt =====
-- The log of the requests that were let through, as the sorted set of rate_limiter.py holds it.
use llm_sentinel.Prelude.{
  ℕ, suc, ◌+◌, ◌-◌, ◌≤◌, ◌<◌, ◌≡◌, ◌⊎◌, refl, ap, ◌∙◌, Bool, true, false, not, List, [], ◌∷◌, ◌++◌,
  Option, none, some, arith, ltb, ◌==◌, string_eq, Dict, insert, length, select, select-All_eq, All,
  All-map,
}
use llm_sentinel.Breaker.State.{seconds}
use llm_sentinel.Store.Entry.{Entry, sorted_set}
use llm_sentinel.Store.Ops.{sort_scored, in_range}
use llm_sentinel.Store.Sorted.{sort_scored-All, length-sort_scored}
use llm_sentinel.RateLimit.Window.{Stamp, stamp_eq, window}

-- The sorted set that holds the stamps of a list.
abbrev pub scored : List Stamp → Dict Stamp ℕ
scored [] = []
scored (x ∷ xs) = (x, x.time) ∷ scored xs

-- The stamps later than a time.
abbrev pub after : ℕ → List Stamp → List Stamp
after c = select (λ x. ltb c x.time)

pub after-after : (c d : ℕ) (xs : List Stamp) → c ≤ d → after d (after c xs) ≡ after d xs
after-after c d [] h = refl
after-after c d (x ∷ xs) h = ground (arith, after-after c d xs h)

pub scored-after :
    (d : ℕ) (xs : List Stamp)
    → select (λ m. not (in_range 0 d m.1)) (scored xs) ≡ scored (after d xs)
scored-after d [] = refl
scored-after d (x ∷ xs) = ground (arith, scored-after d xs)

length-scored : (xs : List Stamp) → length (scored xs) ≡ length xs
length-scored [] = refl
length-scored (x ∷ xs) = ap suc (length-scored xs)

scored-append :
    (xs : List Stamp) (r : Stamp) → scored (xs ++ (r ∷ [])) ≡ scored xs ++ ((r, r.time) ∷ [])
scored-append [] r = refl
scored-append (x ∷ xs) r = ap (◌∷◌ (x, x.time)) (scored-append xs r)

pub insert-new :
    (r : Stamp) (xs : List Stamp)
    → All (λ x. (x == r) ≡ false) xs
    → insert r r.time (scored xs) ≡ scored (xs ++ (r ∷ []))
insert-new r [] a = refl
insert-new r (x ∷ xs) a = rw a.0 (ap (◌∷◌ (x, x.time)) (insert-new r xs a.1))

All-scored :
    (P : Stamp × ℕ → Type 0) (xs : List Stamp) → All (λ x. P (x, x.time)) xs → All P (scored xs)
All-scored P [] a = tt
All-scored P (x ∷ xs) a = (a.0, All-scored P xs a.1)

-- What the store keeps of a log of admitted requests: those later than `c`, under a lifetime that
-- outlasts the window of each; never more than `limit`. Where there is no entry there is none later.
pub record Keeps (limit c : ℕ) (log : List Stamp) (o : Option (Entry Stamp)) : Type 0 where
  pub few : length (after c log) ≤ limit
  pub stored :
      ((o ≡ none) × (after c log ≡ []))
      ⊎ ((lifetime : ℕ) × (o
            ≡ some
                (record { value = sorted_set (scored (after c log)); expires_at = some lifetime }))
          × All (λ x. x.time + seconds (window + 10) ≤ lifetime) log)

-- The request `r` is not older than the log, and no stamp of the log is its own.
abbrev pub Follows : Stamp → Stamp → Type 0
Follows r x = (x.time ≤ r.time) × ((x == r) ≡ false)

-- The members that the check counts, where the set holds the stamps `xs`.
abbrev pub counted : Stamp → List Stamp → List (Stamp × ℕ)
counted r xs =
    select (λ m. in_range (r.time - seconds window) r.time m.1) (sort_scored [] (scored xs))

pub length-counted :
    (r : Stamp) (xs : List Stamp)
    → All (λ x. (x.time ≤ r.time) × (r.time - seconds window < x.time)) xs
    → length (counted r xs) ≡ length xs
length-counted r xs a =
    let all : All (λ m. in_range (r.time - seconds window) r.time m.1 ≡ true)
        (sort_scored [] (scored xs)) =
      sort_scored-All (λ m. in_range (r.time - seconds window) r.time m.1 ≡ true) [] (scored xs) tt
        (All-scored (λ m. in_range (r.time - seconds window) r.time m.1 ≡ true) xs
          (All-map (λ (x : Stamp). (x.time ≤ r.time) × (r.time - seconds window < x.time))
            (λ (x : Stamp). in_range (r.time - seconds window) r.time x.time ≡ true)
            (λ x h. ground arith) xs a)) in
    ap length (select-All_eq (λ m. in_range (r.time - seconds window) r.time m.1) _ all)
    ∙ length-sort_scored [] (scored xs)
    ∙ omega (arith, length-scored xs)

-- The log after a check.
abbrev pub logged : Bool → Stamp → List Stamp → List Stamp
logged true r log = log ++ (r ∷ [])
logged false r log = log

-- The stamps that a check counts are those of the window that ends at it.
pub after-window :
    (r : Stamp) (c : ℕ) (log : List Stamp)
    → c ≤ r.time - seconds window
    → All (Follows r) log
    → All
        (λ x. (x.time ≤ r.time) × (r.time - seconds window < x.time))
        (after (r.time - seconds window) log)
after-window r c [] h a = tt
after-window r c (x ∷ xs) h a = ground (arith, after-window r c xs h a.1)
