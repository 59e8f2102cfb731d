-- ===== src/RateLimit/Refined.antt =====
-- The sliding window of rate_limiter.py against the log that it stands for.
use llm_sentinel.Prelude.{
  ℕ, ◌-◌, ◌≤◌, ◌≡◌, inl, inr, refl, sym, ap, ◌∙◌, subst, String, Bool, List, [], ◌∷◌, none, arith,
  string_eq, lookup, length, All, All-map, leb, ltb, Option, Bool-cases,
}
use llm_sentinel.Breaker.State.{seconds}
use llm_sentinel.Store.Entry.{Entry}
use llm_sentinel.Store.Ops.{Store}
use llm_sentinel.RateLimit.Window.{Stamp, stamp_eq, window, sliding_window_check, check_entry}
use llm_sentinel.RateLimit.Scored.{
  after, after-after, Keeps, Follows, logged, counted, length-counted, after-window,
}
use llm_sentinel.RateLimit.Admitted.{
  sliding_window_check-entry, check_entry-Keeps, answer, check_entry_live_lem, check_entry_gone_lem,
  check_entry_expired, after-expired,
}
use llm_sentinel.RateLimit.Limit.{admit, InOrder, Follows-logged, All-empty, All-zero}

-- A request is let through exactly if fewer than `limit` of the log lie in its last minute.
abbrev has_room : ℕ → Stamp → List Stamp → Bool
has_room limit r log = ltb (length (after (r.time - seconds window) log)) limit

-- The log alone, as the window is meant.
abbrev pub admit_spec : ℕ → List Stamp → List Stamp → List Stamp
admit_spec limit [] log = log
admit_spec limit (r ∷ rs) log = admit_spec limit rs (logged (has_room limit r log) r log)

answer-decides :
    (limit : ℕ) (r : Stamp) (xs : List Stamp) (lifetime n : ℕ)
    → (answer limit r xs lifetime (leb limit n)).0.0 ≡ ltb n limit
answer-decides limit r xs lifetime n = ground arith

gone-decides :
    (limit : ℕ) (r : Stamp) (log : List Stamp)
    → after (r.time - seconds window) log ≡ []
    → (check_entry limit r none).0.0 ≡ has_room limit r log
gone-decides limit r log e =
    let gone : (check_entry limit r none).0.0 ≡ ltb 0 limit =
      ap (λ p. p.0.0) (check_entry_gone_lem limit r) ∙ ground arith in
    gone ∙ ap (λ xs. ltb (length xs) limit) (sym e)

check_entry-decides :
    (limit c : ℕ) (r : Stamp) (log : List Stamp) (o : Option (Entry Stamp))
    → c ≤ r.time - seconds window
    → All (Follows r) log
    → Keeps limit c log o
    → (check_entry limit r o).0.0 ≡ has_room limit r log
check_entry-decides limit c r log o h a k = elim k.stored [
  | inl (gone, e) ↦
      ap (λ p. (check_entry limit r p).0.0) gone
      ∙ gone-decides limit r log (
          sym (after-after c (r.time - seconds window) log h)
          ∙ ap (after (r.time - seconds window)) e)
  | inr (lifetime, there, keeps) ↦
      ap (λ p. (check_entry limit r p).0.0) there ∙ elim (Bool-cases (ltb lifetime r.time)) [
        | inl t ↦
            ap (λ p. p.0.0) (check_entry_expired limit r log c lifetime (ground arith))
            ∙ gone-decides limit r log (after-expired r lifetime log (ground arith) keeps)
        | inr t ↦
            let xs = after (r.time - seconds window) log in
            ap (λ p. p.0.0) (check_entry_live_lem limit r log c lifetime h (ground arith) a)
            ∙ answer-decides limit r xs lifetime (length (counted r xs))
            ∙ ap (λ n. ltb n limit) (length-counted r xs (after-window r c log h a))
      ]
]

admit-refines :
    (key : String) (limit c : ℕ) (rs log : List Stamp) (s : Store Stamp)
    → InOrder rs
    → All (λ x. c ≤ x.time - seconds window) rs
    → All (λ x. All (Follows x) log) rs
    → Keeps limit c log (lookup key s)
    → admit key limit rs log s ≡ admit_spec limit rs log
admit-refines key limit c [] log s o l f k = refl
admit-refines key limit c (r ∷ rs) log s o l f k =
    let step = check_entry-Keeps limit c r log (lookup key s) l.0 o.0 f.0 k in
    let decision = check_entry-decides limit c r log (lookup key s) l.0 f.0 k in
    let (e, stored) = sliding_window_check-entry key limit r s in
    let s' = (sliding_window_check key limit r s).1 in
    let decided : (sliding_window_check key limit r s).0.0 ≡ has_room limit r log =
      ap (λ (p : Bool × ℕ). p.0) e ∙ decision in
    let lets = has_room limit r log in
    ap (λ b. admit key limit rs (logged b r log) s') decided
    ∙ admit-refines key limit (r.time - seconds window) rs (logged lets r log) s' o.2
        (All-map (λ x. Follows x r) (λ x. r.time - seconds window ≤ x.time - seconds window)
          (λ x g. omega arith) rs o.1)
        (Follows-logged lets r log rs o.1 f.1)
        (subst (λ b. Keeps limit (r.time - seconds window) (logged b r log) (lookup key s'))
          decision
          (subst
            (Keeps limit (r.time - seconds window)
              (logged (check_entry limit r (lookup key s)).0.0 r log))
            (sym stored) step))

-- From a store without the key, over any run of requests at one key in the order of time, no two
-- by one task at one time and none in the first minute of the clock, exactly those are let through
-- that have fewer than `limit` of the ones before them in their last minute.
pub admit-admit_spec :
    (key : String) (limit : ℕ) (rs : List Stamp) (s : Store Stamp)
    → lookup key s ≡ none
    → InOrder rs
    → admit key limit rs [] s ≡ admit_spec limit rs []
admit-admit_spec key limit rs s e o =
    admit-refines key limit 0 rs [] s o (All-zero rs) (All-empty rs)
      (record { few = omega arith; stored = inl (e, refl) })
