-- ===== src/Proxy/Providers.antt =====
-- The providers that a request tries, in order (`providers_to_try` of llm_proxy.py).
use llm_sentinel.Prelude.{
  ◌≡◌, inl, inr, refl, ap, ◌∙◌, String, Bool, true, false, not, ◌&&◌, List, [], ◌∷◌, ◌++◌, arith,
  ◌==◌, string_eq, if◌then◌else◌, beq_self, Bool-cases, sym, subst,
}
use text.Mathlib.TextEquality.{eq_iff}

-- `fb in providers_to_try`
abbrev pub has : String → List String → Bool
has p [] = false
has p (x ∷ xs) = if x == p then true else has p xs

-- The loop over the fallback chain.
unfoldable add_fallbacks : String → List String → List String → List String
add_fallbacks provider tried [] = tried
add_fallbacks provider tried (fb ∷ chain) =
    add_fallbacks provider
      (if not (fb == provider) && not (has fb tried) then tried ++ (fb ∷ []) else tried) chain

unfoldable pub providers_to_try : String → List String → List String
unfolding add_fallbacks
providers_to_try provider chain = add_fallbacks provider (provider ∷ []) chain

-- No provider stands in the list twice.
abbrev pub Distinct : List String → Type 0
Distinct [] = Unit
Distinct (x ∷ xs) = (has x xs ≡ false) × Distinct xs

has-append :
    (p q : String) (xs : List String) → has p (xs ++ (q ∷ [])) ≡ (if has p xs then true else q == p)
has-append p q [] = ground arith
has-append p q (x ∷ xs) = ground (arith, has-append p q xs)

Distinct-append :
    (q : String) (xs : List String) → has q xs ≡ false → Distinct xs → Distinct (xs ++ (q ∷ []))
Distinct-append q [] h d = (refl, tt)
Distinct-append q (x ∷ xs) h d =
    ground (arith, has-append x q xs, Distinct-append q xs, eq_iff x q, eq_iff q x)

add_fallbacks-Distinct :
    (provider : String) (tried chain : List String)
    → Distinct tried
    → Distinct (add_fallbacks provider tried chain)
unfolding add_fallbacks
add_fallbacks-Distinct provider tried [] d = d
add_fallbacks-Distinct provider tried (fb ∷ chain) d =
    elim (Bool-cases (not (fb == provider) && not (has fb tried))) [
      | inl t ↦
          subst
            (λ b. Distinct (add_fallbacks provider (if b then tried ++ (fb ∷ []) else tried) chain))
            (sym t)
            (add_fallbacks-Distinct provider (tried ++ (fb ∷ [])) chain
              (Distinct-append fb tried (ground arith) d))
      | inr t ↦
          subst
            (λ b. Distinct (add_fallbacks provider (if b then tried ++ (fb ∷ []) else tried) chain))
            (sym t) (add_fallbacks-Distinct provider tried chain d)
    ]

has-eq : (a b : String) (xs : List String) → (a == b) ≡ true → has a xs ≡ has b xs
has-eq a b xs h = ap (λ (q : String). has q xs) ((eq_iff a b).0 h)

add_fallbacks-has :
    (provider p : String) (tried chain : List String)
    → has provider tried ≡ true
    → has p (add_fallbacks provider tried chain) ≡ (if has p tried then true else has p chain)
unfolding add_fallbacks
add_fallbacks-has provider p tried [] h = ground arith
add_fallbacks-has provider p tried (fb ∷ chain) h =
    let tried' : List String =
      if not (fb == provider) && not (has fb tried) then tried ++ (fb ∷ []) else tried in
    let own : has provider tried' ≡ true = ground (arith, has-append provider fb tried) in
    ground (
      arith,
      add_fallbacks-has provider p tried' chain own,
      has-append p fb tried,
      has-eq fb p tried,
      has-eq fb provider tried,
    )

add_fallbacks-cons :
    (provider x : String) (tried chain : List String)
    → (rest : List String) × (add_fallbacks provider (x ∷ tried) chain ≡ x ∷ rest)
unfolding add_fallbacks
add_fallbacks-cons provider x tried [] = (tried, refl)
add_fallbacks-cons provider x tried (fb ∷ chain) =
    elim (Bool-cases (not (fb == provider) && not (has fb (x ∷ tried)))) [
      | inl t ↦
          subst
            (λ b.
              (rest : List String) × (add_fallbacks provider
                  (if b then x ∷ (tried ++ (fb ∷ [])) else x ∷ tried) chain
                ≡ x ∷ rest))
            (sym t) (add_fallbacks-cons provider x (tried ++ (fb ∷ [])) chain)
      | inr t ↦
          subst
            (λ b.
              (rest : List String) × (add_fallbacks provider
                  (if b then x ∷ (tried ++ (fb ∷ [])) else x ∷ tried) chain
                ≡ x ∷ rest))
            (sym t) (add_fallbacks-cons provider x tried chain)
    ]

-- A request tries the asked provider first, then each other provider of the chain, none of them twice.
pub providers_to_try_lem :
    (provider : String) (chain : List String)
    → ((rest : List String) × (providers_to_try provider chain ≡ provider ∷ rest))
      × Distinct (providers_to_try provider chain)
      × ((p : String)
          → has p (providers_to_try provider chain) ≡ (if provider == p then true else has p chain))
unfolding providers_to_try
providers_to_try_lem provider chain = (
  add_fallbacks-cons provider provider [] chain,
  add_fallbacks-Distinct provider (provider ∷ []) chain (refl, tt),
  λ p.
      add_fallbacks-has provider p (provider ∷ []) chain (rw (beq_self provider) refl)
      ∙ ground arith,
)
