-- ===== src/Tsort/Sample/Overwrite.antt =====
-- memcpy into the vector of hw07/hw07-assignment/tsort.c.
use cs.Base.{
  ℕ, zero, suc, ◌+◌, ◌≤◌, ◌≡◌, refl, sym, ◌∙◌, ap, List, [], ◌∷◌, ◌++◌, arith, length, take, drop,
}
use cs.Tsort.Sample.{overwrite}

module _ {ℓ} {A : Type ℓ} where
  pub length-overwrite : (n : ℕ) (ys xs : List A) → length (overwrite n ys xs) ≡ length xs
  unfolding overwrite
  length-overwrite zero [] xs = refl
  length-overwrite zero (y ∷ ys) [] = refl
  length-overwrite zero (y ∷ ys) (x ∷ xs) = omega (arith, length-overwrite zero ys xs)
  length-overwrite (suc n) ys [] = refl
  length-overwrite (suc n) ys (x ∷ xs) = omega (arith, length-overwrite n ys xs)

  -- What was written.
  pub overwrite_self :
      (n : ℕ) (ys xs : List A)
      → n + length ys ≤ length xs
      → take (length ys) (drop n (overwrite n ys xs)) ≡ ys
  unfolding overwrite
  overwrite_self zero [] xs h = refl
  overwrite_self zero (y ∷ ys) [] h = absurd (omega arith)
  overwrite_self zero (y ∷ ys) (x ∷ xs) h =
      ap (λ t. y ∷ t) (overwrite_self zero ys xs (omega arith))
  overwrite_self (suc n) ys [] h = absurd (omega arith)
  overwrite_self (suc n) ys (x ∷ xs) h = overwrite_self n ys xs (omega arith)

  -- What stands in front of it.
  pub overwrite-below :
      (n a m : ℕ) (ys xs : List A)
      → a + m ≤ n
      → take m (drop a (overwrite n ys xs)) ≡ take m (drop a xs)
  unfolding overwrite
  overwrite-below n a zero ys xs h = refl
  overwrite-below zero a (suc m) ys xs h = absurd (omega arith)
  overwrite-below (suc n) a (suc m) ys [] h = refl
  overwrite-below (suc n) zero (suc m) ys (x ∷ xs) h =
      ap (λ t. x ∷ t) (overwrite-below n zero m ys xs (omega arith))
  overwrite-below (suc n) (suc a) (suc m) ys (x ∷ xs) h =
      overwrite-below n a (suc m) ys xs (omega arith)

  -- What stands behind it.
  pub overwrite-above :
      (n a : ℕ) (ys xs : List A) → n + length ys ≤ a → drop a (overwrite n ys xs) ≡ drop a xs
  unfolding overwrite
  overwrite-above zero a [] xs h = refl
  overwrite-above zero a (y ∷ ys) [] h = refl
  overwrite-above zero zero (y ∷ ys) (x ∷ xs) h = absurd (omega arith)
  overwrite-above zero (suc a) (y ∷ ys) (x ∷ xs) h = overwrite-above zero a ys xs (omega arith)
  overwrite-above (suc n) a ys [] h = refl
  overwrite-above (suc n) zero ys (x ∷ xs) h = absurd (omega arith)
  overwrite-above (suc n) (suc a) ys (x ∷ xs) h = overwrite-above n a ys xs (omega arith)

  take-nil : (k : ℕ) → take {A = A} k [] ≡ []
  take-nil zero = refl
  take-nil (suc k) = refl

  pub take-add : (a b : ℕ) (xs : List A) → take (a + b) xs ≡ take a xs ++ take b (drop a xs)
  take-add zero b xs = ap (λ k. take k xs) (let e : 0 + b ≡ b = omega arith in e)
  take-add (suc a) b [] = take-nil (suc a + b) ∙ sym (take-nil b)
  take-add (suc a) b (x ∷ xs) =
      ap (λ k. take k (x ∷ xs)) (let e : suc a + b ≡ suc (a + b) = omega arith in e)
      ∙ ap (λ t. x ∷ t) (take-add a b xs)
