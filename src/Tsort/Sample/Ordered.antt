-- ===== src/Tsort/Sample/Ordered.antt =====
-- The order of the numbers of hw07/hw07-assignment/tsort.c, counting, and the contract of qsort.
use cs.Base.{get_or, ◌<◌, zero, suc, All-get_or}
use cs.Base.{
  All-imp, All-append, ℕ, suc, ◌+◌, ◌≤◌, ◌≡◌, ◌≢◌, refl, List, [], ◌∷◌, ◌++◌, Bool, true, false,
  not, inl, inr, arith, ℤ, pos, Bool-cases, length, All,
}
use cs.Tsort.Sample.{float_cmp}

abbrev pub bit : Bool → ℕ
bit true = 1
bit false = 0

-- How many numbers satisfy a test.
unfoldable pub count {ℓ} : {A : Type ℓ} → (A → Bool) → List A → ℕ
count p [] = 0
count p (x ∷ xs) = bit (p x) + count p xs

-- Every number stands in front of those that `before` allows behind it.
unfoldable pub Ascending {ℓ κ} : {A : Type ℓ} → (A → A → Type κ) → List A → Type κ
Ascending before [] = Unit
Ascending before (x ∷ xs) = All (before x) xs × Ascending before xs

-- `float` without NaN: a strict order in which a number is below another or above a third between them.
pub record IsOrder {F : Type 0} (at_least less : F → F → Bool) : Type 0 where
  pub at_least_iff : (x y : F) → at_least x y ≡ not (less x y)
  pub irrefl : (x : F) → less x x ≡ false
  pub trans : (x y z : F) → less x y ≡ true → less y z ≡ true → less x z ≡ true
  pub split : (x y z : F) → less x y ≡ false → less y z ≡ false → less x z ≡ false

-- What the manual says of `qsort`: it rearranges the numbers, and none is in front of one that compares
-- below it.
pub record IsSort {F : Type 0} (less : F → F → Bool) (qsort : (F → F → ℤ) → List F → List F)
    : Type 0 where
  pub counts : (p : F → Bool) (xs : List F) → count p (qsort (float_cmp less) xs) ≡ count p xs
  pub sorts :
      (xs : List F) → Ascending (λ x y. float_cmp less x y ≢ pos 1) (qsort (float_cmp less) xs)

abbrev pub NotAbove : {F : Type 0} → (F → F → Bool) → F → F → Type 0
NotAbove less x y = less y x ≡ false

module _ {ℓ} {A : Type ℓ} where
  pub count-append : (p : A → Bool) (xs ys : List A) → count p (xs ++ ys) ≡ count p xs + count p ys
  unfolding count
  count-append p [] ys = omega arith
  count-append p (x ∷ xs) ys = omega (arith, count-append p xs ys)

  pub count-everything : (xs : List A) → count (λ _. true) xs ≡ length xs
  unfolding count
  count-everything [] = refl
  count-everything (x ∷ xs) = omega (arith, count-everything xs)

  pub count-le : (p : A → Bool) (xs : List A) → count p xs ≤ length xs
  unfolding count
  count-le p [] = omega arith
  count-le p (x ∷ xs) = elim (Bool-cases (p x)) [
    | inl h ↦ rw h (omega (arith, count-le p xs))
    | inr h ↦ rw h (omega (arith, count-le p xs))
  ]

  pub count-All : (p : A → Bool) (xs : List A) → All (λ x. p x ≡ true) xs → count p xs ≡ length xs
  unfolding count
  count-All p [] all = refl
  count-All p (x ∷ xs) (h, all) = rw h (omega (arith, count-All p xs all))

  pub All-count : (p : A → Bool) (xs : List A) → count p xs ≡ length xs → All (λ x. p x ≡ true) xs
  unfolding count
  All-count p [] e = tt
  All-count p (x ∷ xs) e = elim (Bool-cases (p x)) [
    | inl h ↦
        let e' : bit (p x) + count p xs ≡ suc (length xs) = e in
        (
          h,
          All-count p xs
              (let k : 1 + count p xs ≡ suc (length xs) = rw h at e' in omega (arith, k)),
        )
    | inr h ↦
        let e' : bit (p x) + count p xs ≡ suc (length xs) = e in
        let k : 0 + count p xs ≡ suc (length xs) = rw h at e' in
        absurd (omega (arith, k, count-le p xs))
  ]

pub Ascending-append {ℓ κ} :
    {A : Type ℓ} (before : A → A → Type κ) (xs ys : List A)
    → Ascending before xs
    → Ascending before ys
    → All (λ x. All (before x) ys) xs
    → Ascending before (xs ++ ys)
unfolding Ascending
Ascending-append before [] ys h k cross = k
Ascending-append before (x ∷ xs) ys (h, hs) k (c, cross) =
    (All-append (before x) xs ys h c, Ascending-append before xs ys hs k cross)

pub Ascending-imp {ℓ κ μ} :
    {A : Type ℓ} {before : A → A → Type κ} {other : A → A → Type μ} (xs : List A)
    → ((x y : A) → before x y → other x y)
    → Ascending before xs
    → Ascending other xs
unfolding Ascending
Ascending-imp [] f h = tt
Ascending-imp (x ∷ xs) f (h, hs) = (All-imp xs (λ y. f x y) h, Ascending-imp xs f hs)

pub get_or-Ascending {κ} :
    {A : Type 0} (before : A → A → Type κ) (xs : List A) (i j : ℕ) (d : A)
    → Ascending before xs
    → i < j
    → j < length xs
    → before (get_or xs i d) (get_or xs j d)
unfolding Ascending
get_or-Ascending before [] i j d a lt h = absurd (omega arith)
get_or-Ascending before (x ∷ xs) i zero d a lt h = absurd (omega arith)
get_or-Ascending before (x ∷ xs) zero (suc j) d (a, _) lt h =
    All-get_or (before x) xs j d (omega arith) a
get_or-Ascending before (x ∷ xs) (suc i) (suc j) d (_, a) lt h =
    get_or-Ascending before xs i j d a (omega arith) (omega arith)
