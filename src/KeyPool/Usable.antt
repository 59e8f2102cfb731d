-- ===== src/KeyPool/Usable.antt =====
-- Which keys `get_next_key` of key_pool.py may hand out.
use mathlib.Core.Option
use mathlib.Core.Option.{some-injective}
use mathlib.Core.Path.{subst₂}
use llm_sentinel.Prelude.{
  ℕ, zero, suc, ◌+◌, ◌%◌, ◌<◌, ◌≡◌, ◌≢◌, inl, inr, refl, ap, ◌∙◌, subst, String, Bool, true, false,
  not, ◌&&◌, List, [], ◌∷◌, none, some, arith, ltb, ◌==◌, nat_eq, string_eq, if◌then◌else◌, Dict,
  lookup, lookup-erase, lookup-insert_self, nat_beq_iff, length, get_elem?, All, All-map,
  Bool-cases, Option-cases,
}
use llm_sentinel.KeyPool.Pool.{
  KeyEntry, ApiKeyPool, is_empty, is_backed_off, scan, least_used, choose, get_next_key,
  mark_rate_limited,
}
use llm_sentinel.Breaker.State.{seconds}

-- A key is backed off at a time before the end of its back-off.
abbrev pub backed_off : ℕ → ℕ → Dict ℕ ℕ → Bool
backed_off now index backoff = elim (lookup index backoff) [
  | none ↦ false
  | some until ↦ ltb now until
]

-- The keys in order, less those that are not healthy or are backed off.
abbrev pub usable : ℕ → ℕ → List KeyEntry → Dict ℕ ℕ → List (ℕ × KeyEntry)
usable now index [] backoff = []
usable now index (k ∷ ks) backoff =
    if k.is_healthy && not (backed_off now index backoff)
    then (index, k) ∷ usable now (suc index) ks backoff
    else usable now (suc index) ks backoff

-- Two back-off tables that agree at a time.
abbrev pub Same : ℕ → Dict ℕ ℕ → Dict ℕ ℕ → Type 0
Same now d d' = (j : ℕ) → backed_off now j d' ≡ backed_off now j d

is_backed_off-0 : (now i : ℕ) (d : Dict ℕ ℕ) → (is_backed_off now i d).0 ≡ backed_off now i d
unfolding is_backed_off
is_backed_off-0 now i d = ground arith

-- Dropping what has run out changes nothing that is read later.
is_backed_off-Same : (now i : ℕ) (d : Dict ℕ ℕ) → Same now d (is_backed_off now i d).1
unfolding is_backed_off
is_backed_off-Same now i d j =
    ground (arith, lookup-erase i j d, nat_beq_iff i j, ap (λ (k : ℕ). lookup k d))

abbrev looked_up : ℕ → ℕ → KeyEntry → Dict ℕ ℕ → Bool × Dict ℕ ℕ
looked_up now i k d = if k.is_healthy then is_backed_off now i d else (true, d)

looked_up-Same : (now i : ℕ) (k : KeyEntry) (d : Dict ℕ ℕ) → Same now d (looked_up now i k d).1
looked_up-Same now i k d j = elim (Bool-cases k.is_healthy) [
  | inl e ↦ rw e (is_backed_off-Same now i d j)
  | inr e ↦ rw e refl
]

-- The comprehension selects the usable keys, and leaves the back-offs as they are read.
pub scan_lem :
    (now i : ℕ) (ks : List KeyEntry) (d d' : Dict ℕ ℕ)
    → Same now d d'
    → ((scan now i ks d').0 ≡ usable now i ks d) × Same now d (scan now i ks d').1
unfolding scan
scan_lem now i [] d d' s = (refl, s)
scan_lem now i (k ∷ ks) d d' s =
    let rest =
      scan_lem now (suc i) ks d (looked_up now i k d').1 (λ j. looked_up-Same now i k d' j ∙ s j) in
    (ground (arith, rest.0, s i, is_backed_off-0 now i d'), rest.1)

-- Entry `e` is key number `i + j` for an entry of number `j`, healthy and not backed off.
abbrev pub IsUsable : ℕ → ℕ → List KeyEntry → Dict ℕ ℕ → ℕ × KeyEntry → Type 0
IsUsable now i ks d e =
    (j : ℕ) × (e.0 ≡ i + j)
    × (get_elem? ks j ≡ some e.1)
    × (e.1.is_healthy ≡ true)
    × (backed_off now e.0 d ≡ false)

pub usable-All :
    (now i : ℕ) (ks : List KeyEntry) (d : Dict ℕ ℕ) → All (IsUsable now i ks d) (usable now i ks d)
usable-All now i [] d = tt
usable-All now i (k ∷ ks) d =
    let rest : All (IsUsable now i (k ∷ ks) d) (usable now (suc i) ks d) =
      All-map (IsUsable now (suc i) ks d) (IsUsable now i (k ∷ ks) d)
        (λ e u. (suc u.0, omega arith, u.2, u.3, u.4)) (usable now (suc i) ks d)
        (usable-All now (suc i) ks d) in
    elim (Bool-cases (k.is_healthy && not (backed_off now i d))) [
      | inl e ↦ rw e ((0, omega arith, refl, ground arith, ground arith), rest)
      | inr e ↦ rw e rest
    ]

if-eq-nil {ℓ} :
    {A : Type ℓ} (b : Bool) (y : A) (ys zs : List A)
    → (if b then y ∷ ys else zs) ≡ []
    → (b ≡ false) × (zs ≡ [])
if-eq-nil true y ys zs h = cc
if-eq-nil false y ys zs h = (refl, h)

-- Where no key is usable, each is unhealthy or backed off.
usable-nil :
    (now i j n : ℕ) (k : KeyEntry) (ks : List KeyEntry) (d : Dict ℕ ℕ)
    → get_elem? ks j ≡ some k
    → i + j ≡ n
    → usable now i ks d ≡ []
    → (k.is_healthy && not (backed_off now n d)) ≡ false
usable-nil now i j n k [] d h m e = cc
usable-nil now i zero n k (x ∷ ks) d h m e =
    subst₂ (λ (y : KeyEntry) (o : ℕ). (y.is_healthy && not (backed_off now o d)) ≡ false)
      (some-injective _ _ h) (omega arith) (if-eq-nil _ _ _ _ e).0
usable-nil now i (suc j) n k (x ∷ ks) d h m e =
    usable-nil now (suc i) j n k ks d h (omega arith) (if-eq-nil _ _ _ _ e).1

All-get {ℓ κ} :
    {A : Type ℓ} (P : A → Type κ) (xs : List A) (n : ℕ) (x : A)
    → All P xs
    → get_elem? xs n ≡ some x
    → P x
All-get P [] n x a h = cc
All-get P (y ∷ ys) zero x a h = subst P (some-injective _ _ h) a.0
All-get P (y ∷ ys) (suc n) x a h = All-get P ys n x a.1 h

least_used-All {κ} :
    (P : ℕ × KeyEntry → Type κ) (best : ℕ × KeyEntry) (xs : List (ℕ × KeyEntry))
    → P best
    → All P xs
    → P (least_used best xs)
unfolding least_used
least_used-All P best [] b a = b
least_used-All P best (x ∷ xs) b a = elim (Bool-cases (ltb x.1.usage_count best.1.usage_count)) [
  | inl e ↦ rw e (least_used-All P x xs a.0 a.1)
  | inr e ↦ rw e (least_used-All P best xs b a.1)
]

pub choose-All {κ} :
    (P : ℕ × KeyEntry → Type κ) (s : String) (draw counter : ℕ) (xs : List (ℕ × KeyEntry))
    (e : ℕ × KeyEntry)
    → All P xs
    → choose s draw counter xs ≡ some e
    → P e
unfolding choose
choose-All P s draw counter [] e a h = cc
choose-All P s draw counter (x ∷ xs) e a h = elim (Bool-cases (s == "random")) [
  | inl r ↦ All-get P (x ∷ xs) (draw % length (x ∷ xs)) e a (ground arith)
  | inr r ↦ elim (Bool-cases (s == "least_used")) [
    | inl l ↦ subst P (ground arith) (least_used-All P x xs a.0 a.1)
    | inr l ↦ All-get P (x ∷ xs) (counter % length (x ∷ xs)) e a (ground arith)
  ]
]

pub usable-eq-nil :
    (now i : ℕ) (ks : List KeyEntry) (d : Dict ℕ ℕ) → is_empty ks ≡ true → usable now i ks d ≡ []
usable-eq-nil now i [] d e = refl
usable-eq-nil now i (k ∷ ks) d e = cc

get_elem?-ne-none {ℓ} : {A : Type ℓ} (xs : List A) (n : ℕ) → n < length xs → get_elem? xs n ≢ none
get_elem?-ne-none [] n l e = elim l [ ]
get_elem?-ne-none (x ∷ xs) zero l e = cc
get_elem?-ne-none (x ∷ xs) (suc n) l e = get_elem?-ne-none xs n (omega arith) e

choose-eq-none :
    (s : String) (draw counter : ℕ) (xs : List (ℕ × KeyEntry))
    → choose s draw counter xs ≡ none
    → xs ≡ []
unfolding choose
choose-eq-none s draw counter [] h = refl
choose-eq-none s draw counter (x ∷ xs) h = absurd (
    ground (
      arith,
      get_elem?-ne-none (x ∷ xs) (draw % length (x ∷ xs)) (omega arith),
      get_elem?-ne-none (x ∷ xs) (counter % length (x ∷ xs)) (omega arith),
    ))

-- What `get_next_key` returns, in terms of the keys that are usable.
pub get_next_key_lem :
    (now : ℕ) (s : String) (draw : ℕ) (p : ApiKeyPool)
    → (get_next_key now s draw p).0
      ≡ Option.map
          (λ e. (e.1.key_plaintext, e.0))
          (choose s draw p.counter (usable now 0 p.keys p.backoff))
unfolding get_next_key
get_next_key_lem now s draw p = ground (
  arith,
  (scan_lem now 0 p.keys p.backoff p.backoff (λ j. refl)).0,
  usable-eq-nil now 0 p.keys p.backoff,
)

-- A key that `get_next_key` returns is the plaintext of the entry at the returned index, which is
-- healthy and not backed off, under every strategy and every random draw.
pub get_next_key_usable :
    (now : ℕ) (s : String) (draw : ℕ) (p : ApiKeyPool) (key : String) (i : ℕ)
    → (get_next_key now s draw p).0 ≡ some (key, i)
    → (k : KeyEntry) × (get_elem? p.keys i ≡ some k)
      × (k.key_plaintext ≡ key)
      × (k.is_healthy ≡ true)
      × (backed_off now i p.backoff ≡ false)
get_next_key_usable now s draw p key i h =
    elim (Option-cases (choose s draw p.counter (usable now 0 p.keys p.backoff))) [
      | inl e ↦ absurd (ground (arith, get_next_key_lem now s draw p))
      | inr (e, c) ↦
          let u =
            choose-All (IsUsable now 0 p.keys p.backoff) s draw p.counter
              (usable now 0 p.keys p.backoff) e (usable-All now 0 p.keys p.backoff) c in
          let same : (e.1.key_plaintext ≡ key) × (e.0 ≡ i) =
            ground (arith, get_next_key_lem now s draw p) in
          let place : u.0 ≡ i = omega arith in
          (
            e.1,
            subst (λ j. get_elem? p.keys j ≡ some e.1) place u.2,
            same.0,
            u.3,
            subst (λ j. backed_off now j p.backoff ≡ false) same.1 u.4,
          )
    ]

-- `get_next_key` returns nothing only where each key is unhealthy or backed off.
get_next_key-none :
    (now : ℕ) (s : String) (draw : ℕ) (p : ApiKeyPool) (i : ℕ) (k : KeyEntry)
    → (get_next_key now s draw p).0 ≡ none
    → get_elem? p.keys i ≡ some k
    → (k.is_healthy && not (backed_off now i p.backoff)) ≡ false
get_next_key-none now s draw p i k h g =
    elim (Option-cases (choose s draw p.counter (usable now 0 p.keys p.backoff))) [
      | inl e ↦
          usable-nil now 0 i i k p.keys p.backoff g (omega arith)
            (choose-eq-none s draw p.counter _ e)
      | inr (e, c) ↦ absurd (ground (arith, get_next_key_lem now s draw p))
    ]

-- A key that a provider has rate limited is not returned before its back-off ends.
mark_rate_limited-excludes :
    (now later : ℕ) (i retry_after : ℕ) (s : String) (draw : ℕ) (p : ApiKeyPool) (key : String)
    → later < now + seconds retry_after
    → (get_next_key later s draw (mark_rate_limited now i retry_after p)).0 ≢ some (key, i)
unfolding mark_rate_limited
mark_rate_limited-excludes now later i retry_after s draw p key l h =
    let u = get_next_key_usable later s draw (mark_rate_limited now i retry_after p) key i h in
    ground (arith, u.4, lookup-insert_self i (now + seconds retry_after) p.backoff)
