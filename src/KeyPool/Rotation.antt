-- ===== src/KeyPool/Rotation.antt =====
-- The order in which the strategies of `get_next_key` of key_pool.py hand out keys.
use mathlib.Core.Option
use mathlib.Core.Option.{some-injective}
use mathlib.Core.Path.{ap₂}
use native.Mathlib.Nat.{mod-lt, add-mod-mod, mod-add-mod, add-mod_right, mod-eq_of_lt}
use llm_sentinel.Prelude.{
  ℕ, zero, suc, ◌+◌, ◌-◌, ◌%◌, ◌≤◌, ◌<◌, ◌≡◌, refl, sym, ap, ◌∙◌, subst, String, List, [], ◌∷◌,
  some, arith, ltb, string_eq, if◌then◌else◌, Dict, length, get_elem?, All, Bool-cases,
  Option-cases, inl, inr,
}
use llm_sentinel.KeyPool.Pool.{KeyEntry, ApiKeyPool, scan, least_used, choose, get_next_key}
use llm_sentinel.KeyPool.Usable.{
  usable, Same, scan_lem, usable-eq-nil, get_next_key_lem, IsUsable, usable-All, choose-All,
}

-- The pool after a number of round-robin calls at one time.
abbrev pub after_calls : ℕ → ℕ → ℕ → ApiKeyPool → ApiKeyPool
after_calls now draw zero p = p
after_calls now draw (suc n) p = after_calls now draw n (get_next_key now "round_robin" draw p).1

usable-Same :
    (now i : ℕ) (ks : List KeyEntry) (d d' : Dict ℕ ℕ)
    → Same now d d'
    → usable now i ks d' ≡ usable now i ks d
usable-Same now i [] d d' s = refl
usable-Same now i (k ∷ ks) d d' s = ground (arith, s i, usable-Same now (suc i) ks d d' s)

-- The pool that a round-robin call leaves, where some key is usable.
round_robin_pool :
    (now draw : ℕ) (p : ApiKeyPool)
    → 0 < length (usable now 0 p.keys p.backoff)
    → (get_next_key now "round_robin" draw p).1
      ≡ record p { counter = p.counter + 1; backoff = (scan now 0 p.keys p.backoff).1 }
unfolding get_next_key
round_robin_pool now draw p h = ground (
  arith,
  (scan_lem now 0 p.keys p.backoff p.backoff (λ j. refl)).0,
  usable-eq-nil now 0 p.keys p.backoff,
)

-- A call that finds a key moves the counter on, and changes nothing that later calls read.
round_robin_step :
    (now draw : ℕ) (p : ApiKeyPool)
    → 0 < length (usable now 0 p.keys p.backoff)
    → let q = (get_next_key now "round_robin" draw p).1 in
      (q.counter ≡ p.counter + 1) × (usable now 0 q.keys q.backoff ≡ usable now 0 p.keys p.backoff)
round_robin_step now draw p h = rw (round_robin_pool now draw p h) (
  refl,
  usable-Same now 0 p.keys p.backoff (scan now 0 p.keys p.backoff).1
      (scan_lem now 0 p.keys p.backoff p.backoff (λ j. refl)).1,
)

after_calls_lem :
    (now draw n : ℕ) (p : ApiKeyPool)
    → 0 < length (usable now 0 p.keys p.backoff)
    → let q = after_calls now draw n p in
      (q.counter ≡ p.counter + n) × (usable now 0 q.keys q.backoff ≡ usable now 0 p.keys p.backoff)
after_calls_lem now draw zero p h = (omega arith, refl)
after_calls_lem now draw (suc n) p h =
    let (c, u) = round_robin_step now draw p h in
    let q = (get_next_key now "round_robin" draw p).1 in
    let (c', u') =
      after_calls_lem now draw n q (omega (arith, ap (λ (l : List (ℕ × KeyEntry)). length l) u)) in
    (omega arith, u' ∙ u)

choose-round_robin :
    (draw counter : ℕ) (u : List (ℕ × KeyEntry))
    → 0 < length u
    → choose "round_robin" draw counter u ≡ get_elem? u (counter % length u)
unfolding choose
choose-round_robin draw counter [] h = elim h [ ]
choose-round_robin draw counter (x ∷ xs) h = refl

get_elem?-lt {ℓ} :
    {A : Type ℓ} (xs : List A) (i : ℕ) (x : A) → get_elem? xs i ≡ some x → i < length xs
get_elem?-lt [] i x h = cc
get_elem?-lt (y ∷ ys) zero x h = omega arith
get_elem?-lt (y ∷ ys) (suc i) x h = omega (arith, get_elem?-lt ys i x h)

-- The number of calls after which the counter points at place `t`.
abbrev calls_until : ℕ → ℕ → ℕ → ℕ
calls_until n counter t = (t + n - counter % n) % n

calls_until_lem : (n counter t : ℕ) → t < n → (counter + calls_until n counter t) % n ≡ t
calls_until_lem n counter t h =
    let inner : counter % n < n = mod-lt counter (omega arith) in
    let total : counter % n + (t + n - counter % n) ≡ t + n = omega arith in
    add-mod-mod counter (t + n - counter % n) n
    ∙ sym (mod-add-mod counter n (t + n - counter % n))
    ∙ ap (λ (k : ℕ). k % n) total
    ∙ add-mod_right t n
    ∙ mod-eq_of_lt h

-- Round robin is fair: with `n` usable keys each of them is returned at one of the first `n` calls
-- made at one time.
pub round_robin_fair :
    (now draw t : ℕ) (e : ℕ × KeyEntry) (p : ApiKeyPool)
    → get_elem? (usable now 0 p.keys p.backoff) t ≡ some e
    → (i : ℕ) × (i < length (usable now 0 p.keys p.backoff))
      × ((get_next_key now "round_robin" draw (after_calls now draw i p)).0
          ≡ some (e.1.key_plaintext, e.0))
round_robin_fair now draw t e p h =
    let u = usable now 0 p.keys p.backoff in
    let n = length u in
    let i = calls_until n p.counter t in
    let small : t < n = get_elem?-lt u t e h in
    let q = after_calls now draw i p in
    let (c, same) = after_calls_lem now draw i p (omega arith) in
    (
      i,
      omega arith,
      get_next_key_lem now "round_robin" draw q
          ∙ ap (Option.map (λ (x : ℕ × KeyEntry). (x.1.key_plaintext, x.0))) (
              ap₂ (choose "round_robin" draw) c same
              ∙ choose-round_robin draw (p.counter + i) u (omega arith)
              ∙ ap (get_elem? u) (calls_until_lem n p.counter t small)
              ∙ h),
    )

abbrev IsLeast : ℕ × KeyEntry → ℕ × KeyEntry → List (ℕ × KeyEntry) → Type 0
IsLeast r best xs =
    (r.1.usage_count ≤ best.1.usage_count) × All (λ x. r.1.usage_count ≤ x.1.usage_count) xs

least_used_le :
    (best : ℕ × KeyEntry) (xs : List (ℕ × KeyEntry)) → IsLeast (least_used best xs) best xs
unfolding least_used
least_used_le best [] = (omega arith, tt)
least_used_le best (x ∷ xs) = elim (Bool-cases (ltb x.1.usage_count best.1.usage_count)) [
  | inl e ↦
      let (m, a) = least_used_le x xs in
      subst (λ b. IsLeast (least_used (if b then x else best) xs) best (x ∷ xs)) (sym e)
        (ground (arith, m), (m, a))
  | inr e ↦
      let (m, a) = least_used_le best xs in
      subst (λ b. IsLeast (least_used (if b then x else best) xs) best (x ∷ xs)) (sym e)
        (m, (ground (arith, m), a))
]

choose-least_used :
    (draw counter : ℕ) (u : List (ℕ × KeyEntry)) (e : ℕ × KeyEntry)
    → choose "least_used" draw counter u ≡ some e
    → All (λ x. e.1.usage_count ≤ x.1.usage_count) u
unfolding choose
choose-least_used draw counter [] e h = tt
choose-least_used draw counter (x ∷ xs) e h =
    subst (λ r. All (λ y. r.1.usage_count ≤ y.1.usage_count) (x ∷ xs))
      (some-injective (least_used x xs) e h) (least_used_le x xs)

-- Under `least_used` the returned key is the plaintext of the entry at the returned index, and no
-- usable entry has been used less often than that one.
least_used_minimal :
    (now draw : ℕ) (p : ApiKeyPool) (key : String) (i : ℕ)
    → (get_next_key now "least_used" draw p).0 ≡ some (key, i)
    → (k : KeyEntry) × (get_elem? p.keys i ≡ some k)
      × (k.key_plaintext ≡ key)
      × All (λ x. k.usage_count ≤ x.1.usage_count) (usable now 0 p.keys p.backoff)
least_used_minimal now draw p key i h =
    let u = usable now 0 p.keys p.backoff in
    elim (Option-cases (choose "least_used" draw p.counter u)) [
      | inl e ↦ absurd (ground (arith, get_next_key_lem now "least_used" draw p))
      | inr (e, c) ↦
          let place =
            choose-All (IsUsable now 0 p.keys p.backoff) "least_used" draw p.counter u e
              (usable-All now 0 p.keys p.backoff) c in
          let same : (e.1.key_plaintext ≡ key) × (e.0 ≡ i) =
            ground (arith, get_next_key_lem now "least_used" draw p) in
          let at : place.0 ≡ i = omega arith in
          (
            e.1,
            subst (λ j. get_elem? p.keys j ≡ some e.1) at place.2,
            same.0,
            choose-least_used draw p.counter u e c,
          )
    ]
