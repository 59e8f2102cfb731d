-- ===== src/Store/Sorted.antt =====
-- `zrangebyscore` of redis_client.py lists by score: the sort behind it.
use mathlib.Core.List.{Perm, perm_middle, append-nil}
use mathlib.Core.List.Perm
use llm_sentinel.Prelude.{
  ℕ, ◌≤◌, List, [], ◌∷◌, ◌++◌, arith, ltb, length, suc, ◌+◌, ◌≡◌, refl, if◌then◌else◌, All, All-map,
  Bool-cases, inl, inr, subst, sym,
}
use llm_sentinel.Store.Ops.{insert_scored, sort_scored}

module _ {M : Type 0} where
  -- Scores rise along the list: each is at most every later one.
  abbrev pub Sorted : List (M × ℕ) → Type 0
  Sorted [] = Unit
  Sorted (x ∷ xs) = All (λ y. x.1 ≤ y.1) xs × Sorted xs

  insert_scored-All :
      (n : ℕ) (x : M × ℕ) (xs : List (M × ℕ))
      → n ≤ x.1
      → All (λ y. n ≤ y.1) xs
      → All (λ y. n ≤ y.1) (insert_scored x xs)
  unfolding insert_scored
  insert_scored-All n x [] h a = (h, tt)
  insert_scored-All n x (y ∷ ys) h a = ground (arith, insert_scored-All n x ys h a.1)

  insert_scored-Sorted : (x : M × ℕ) (xs : List (M × ℕ)) → Sorted xs → Sorted (insert_scored x xs)
  unfolding insert_scored
  insert_scored-Sorted x [] s = (tt, tt)
  insert_scored-Sorted x (y ∷ ys) s = elim (Bool-cases (ltb x.1 y.1)) [
    | inl l ↦
        subst (λ b. Sorted (if b then x ∷ y ∷ ys else y ∷ insert_scored x ys)) (sym l)
          (
            (ground arith, All-map (λ z. y.1 ≤ z.1) (λ z. x.1 ≤ z.1) (λ z h. ground arith) ys s.0),
            s,
          )
    | inr l ↦
        subst (λ b. Sorted (if b then x ∷ y ∷ ys else y ∷ insert_scored x ys)) (sym l)
          (insert_scored-All y.1 x ys (ground arith) s.0, insert_scored-Sorted x ys s.1)
  ]

  insert_scored-perm : (x : M × ℕ) (xs : List (M × ℕ)) → Perm (insert_scored x xs) (x ∷ xs)
  unfolding insert_scored
  insert_scored-perm x [] = Perm.refl (x ∷ [])
  insert_scored-perm x (y ∷ ys) = elim (Bool-cases (ltb x.1 y.1)) [
    | inl l ↦
        subst (λ b. Perm (if b then x ∷ y ∷ ys else y ∷ insert_scored x ys) (x ∷ y ∷ ys)) (sym l)
          (Perm.refl (x ∷ y ∷ ys))
    | inr l ↦
        subst (λ b. Perm (if b then x ∷ y ∷ ys else y ∷ insert_scored x ys) (x ∷ y ∷ ys)) (sym l)
          (Perm.trans (Perm.cons y (insert_scored-perm x ys)) (Perm.swap x y ys))
  ]

  -- Sorting further members into a list that is in the order of the scores leaves a list in that
  -- order.
  sort_scored-Sorted : (done xs : List (M × ℕ)) → Sorted done → Sorted (sort_scored done xs)
  unfolding sort_scored
  sort_scored-Sorted done [] s = s
  sort_scored-Sorted done (x ∷ xs) s =
      sort_scored-Sorted (insert_scored x done) xs (insert_scored-Sorted x done s)

  -- The sort loses and adds nothing.
  sort_scored-perm : (done xs : List (M × ℕ)) → Perm (sort_scored done xs) (done ++ xs)
  unfolding sort_scored
  sort_scored-perm done [] = rw append-nil (Perm.refl done)
  sort_scored-perm done (x ∷ xs) = Perm.trans (sort_scored-perm (insert_scored x done) xs) (
      Perm.trans (Perm.append_right xs (insert_scored-perm x done))
        (Perm.symm (perm_middle done xs)))

  insert_scored-keeps :
      (P : M × ℕ → Type 0) (x : M × ℕ) (xs : List (M × ℕ))
      → P x
      → All P xs
      → All P (insert_scored x xs)
  unfolding insert_scored
  insert_scored-keeps P x [] h a = (h, tt)
  insert_scored-keeps P x (y ∷ ys) h a = elim (Bool-cases (ltb x.1 y.1)) [
    | inl l ↦ subst (λ b. All P (if b then x ∷ y ∷ ys else y ∷ insert_scored x ys)) (sym l) (h, a)
    | inr l ↦
        subst (λ b. All P (if b then x ∷ y ∷ ys else y ∷ insert_scored x ys)) (sym l)
          (a.0, insert_scored-keeps P x ys h a.1)
  ]

  -- What holds of every member holds of every member of the sorted list.
  pub sort_scored-All :
      (P : M × ℕ → Type 0) (done xs : List (M × ℕ))
      → All P done
      → All P xs
      → All P (sort_scored done xs)
  unfolding sort_scored
  sort_scored-All P done [] d a = d
  sort_scored-All P done (x ∷ xs) d a =
      sort_scored-All P (insert_scored x done) xs (insert_scored-keeps P x done a.0 d) a.1

  length-insert_scored :
      (x : M × ℕ) (xs : List (M × ℕ)) → length (insert_scored x xs) ≡ suc (length xs)
  unfolding insert_scored
  length-insert_scored x [] = refl
  length-insert_scored x (y ∷ ys) = ground (arith, length-insert_scored x ys)

  pub length-sort_scored :
      (done xs : List (M × ℕ)) → length (sort_scored done xs) ≡ length done + length xs
  unfolding sort_scored
  length-sort_scored done [] = omega arith
  length-sort_scored done (x ∷ xs) =
      omega (arith, length-sort_scored (insert_scored x done) xs, length-insert_scored x done)
