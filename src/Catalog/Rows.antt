-- ===== src/Catalog/Rows.antt =====
-- Tables as lists of rows: what a query finds behind an insertion, an update or a deletion.
use llm_sentinel.Prelude.{
  ◌≡◌, refl, Bool, true, false, List, [], ◌∷◌, ◌++◌, Option, none, some, arith, if◌then◌else◌, All,
  Bool-cases, inl, inr,
}
use llm_sentinel.Auth.State.{first_where, update_first}

module _ {ℓ} {A : Type ℓ} where
  -- `await db.delete(row)` for the row that a query gives.
  abbrev pub remove_first : (A → Bool) → List A → List A
  remove_first p [] = []
  remove_first p (x ∷ xs) = if p x then xs else x ∷ remove_first p xs

  abbrev pub is_found : Option A → Bool
  is_found none = false
  is_found (some x) = true

  pub first_where-append :
      (p : A → Bool) (xs ys : List A)
      → first_where p (xs ++ ys)
        ≡ (if is_found (first_where p xs) then first_where p xs else first_where p ys)
  first_where-append p [] ys = refl
  first_where-append p (x ∷ xs) ys = ground (arith, first_where-append p xs ys)

  -- A row that is found stays the first whatever is added behind it.
  pub first_where-keeps :
      (p : A → Bool) (xs ys : List A) (x : A)
      → first_where p xs ≡ some x
      → first_where p (xs ++ ys) ≡ some x
  first_where-keeps p xs ys x h = ground (arith, h, first_where-append p xs ys)

  pub first_where-new :
      (p : A → Bool) (xs : List A) (x : A)
      → first_where p xs ≡ none
      → p x ≡ true
      → first_where p (xs ++ (x ∷ [])) ≡ some x
  first_where-new p xs x h e = ground (arith, h, e, first_where-append p xs (x ∷ []))

  pub first_where-All :
      (p : A → Bool) (xs : List A) → first_where p xs ≡ none → All (λ x. p x ≡ false) xs
  first_where-All p [] h = tt
  first_where-All p (x ∷ xs) h = elim (Bool-cases (p x)) [
    | inl e ↦ absurd (ground (arith, h, e))
    | inr e ↦ (e, first_where-All p xs (ground (arith, h, e)))
  ]

  pub All-remove_first {κ} :
      (P : A → Type κ) (p : A → Bool) (xs : List A) → All P xs → All P (remove_first p xs)
  All-remove_first P p [] h = tt
  All-remove_first P p (x ∷ xs) h = ground (arith, h.0, h.1, All-remove_first P p xs h.1)

  pub All-update_first {κ} :
      (P : A → Type κ) (p : A → Bool) (f : A → A) (xs : List A)
      → ((x : A) → P x → P (f x))
      → All P xs
      → All P (update_first p f xs)
  All-update_first P p f [] k h = tt
  All-update_first P p f (x ∷ xs) k h =
      ground (arith, h.0, h.1, k x h.0, All-update_first P p f xs k h.1)
