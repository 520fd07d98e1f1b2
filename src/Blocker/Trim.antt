-- ===== src/Blocker/Trim.antt =====
-- The loop that drops messages from the back leaves a prefix.
use cmw.Prelude.{
  ℕ, zero, suc, ◌+◌, ◌-◌, ◌≤◌, ◌<◌, ◌≡◌, refl, sym, ap, ◌∙◌, inl, inr, List, [], ◌∷◌, arith, ltb,
  length, take, min, Bool-cases,
}
use cmw.Prelude.Assoc.{text_eq}
use cmw.Blocker.{pop_back, trim}

module _ {A : Type 0} where
  length-pop_back : (xs : List A) → length (pop_back xs) ≡ length xs - 1
  length-pop_back [] = omega arith
  length-pop_back (x ∷ []) = omega arith
  length-pop_back (x ∷ y ∷ xs) = omega (arith, length-pop_back (y ∷ xs))

  take_all : (xs : List A) (n : ℕ) → length xs ≤ n → take n xs ≡ xs
  take_all [] zero le = refl
  take_all [] (suc n) le = refl
  take_all (x ∷ xs) zero le = absurd (omega arith)
  take_all (x ∷ xs) (suc n) le = ap (λ l. x ∷ l) (take_all xs n (omega arith))

  take-pop_back : (xs : List A) (n : ℕ) → n < length xs → take n (pop_back xs) ≡ take n xs
  take-pop_back [] n lt = absurd (omega arith)
  take-pop_back (x ∷ []) zero lt = refl
  take-pop_back (x ∷ []) (suc n) lt = absurd (omega arith)
  take-pop_back (x ∷ y ∷ xs) zero lt = refl
  take-pop_back (x ∷ y ∷ xs) (suc n) lt = ap (λ l. x ∷ l) (take-pop_back (y ∷ xs) n (omega arith))

  -- With enough fuel the loop that drops from the back leaves the first `capacity`.
  pub trim_lem :
      (fuel capacity : ℕ) (xs : List A)
      → length xs ≤ fuel
      → trim fuel capacity xs ≡ take capacity xs
  unfolding trim
  trim_lem zero capacity [] le = sym (take_all [] capacity (omega arith))
  trim_lem zero capacity (x ∷ xs) le = absurd (omega arith)
  trim_lem (suc fuel) capacity xs le = elim (Bool-cases (ltb capacity (length xs))) [
    | inl over ↦
        rw (over, trim)
          (trim_lem fuel capacity (pop_back xs) (omega (arith, length-pop_back xs))
            ∙ take-pop_back xs capacity (ground arith))
    | inr fits ↦ rw (fits, trim) (sym (take_all xs capacity (ground arith)))
  ]

  pub take-take : (m n : ℕ) (xs : List A) → take m (take n xs) ≡ take (min m n) xs
  take-take zero n xs = let e : min zero n ≡ zero = omega arith in ap (λ k. take k xs) (sym e)
  take-take (suc m) zero xs =
      let e : min (suc m) zero ≡ zero = omega arith in ap (λ k. take k xs) (sym e)
  take-take (suc m) (suc n) [] =
      let e : min (suc m) (suc n) ≡ suc (min m n) = omega arith in
      ap (λ k. take {A = A} k []) (sym e)
  take-take (suc m) (suc n) (x ∷ xs) =
      let e : min (suc m) (suc n) ≡ suc (min m n) = omega arith in
      ap (λ l. x ∷ l) (take-take m n xs) ∙ ap (λ k. take k (x ∷ xs)) (sym e)

  -- One more message in front of what was kept
  pub take-push :
      (c k : ℕ) (x : A) (xs : List A) → take c (x ∷ take k xs) ≡ take (min c (k + 1)) (x ∷ xs)
  take-push zero k x xs =
      let e : min zero (k + 1) ≡ zero = omega arith in ap (λ n. take n (x ∷ xs)) (sym e)
  take-push (suc c) k x xs =
      let e : min (suc c) (k + 1) ≡ suc (min c k) = omega arith in
      ap (λ l. x ∷ l) (take-take c k xs) ∙ ap (λ n. take n (x ∷ xs)) (sym e)
