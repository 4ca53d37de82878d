-- ===== src/Base/Lists.antt =====
-- Lists measured and indexed by native numbers, under the library's names.
use Prim.Native.Nat.{ℕ, zero, suc, ◌+◌, ◌-◌, ◌<◌, ◌≤◌, min}
use mathlib.Core.Path.{◌≡◌, refl, ap, ap₂, sym, ◌∙◌}
use mathlib.Core.List.{List, [], ◌∷◌, ◌++◌, map, reverse, reverse-append}
use cs.Base.Tests.{ltb, ◌==◌, if◌then◌else◌, lt→ltb, le→not_ltb}
use native.Mathlib.Decide.{dec_lt}
use native.Mathlib.Omega.{arith}

module _ {ℓ} {A : Type ℓ} where
  abbrev pub length : List A → ℕ
  length [] = 0
  length (x ∷ xs) = suc (length xs)

  abbrev pub get_or : List A → ℕ → A → A
  get_or [] i d = d
  get_or (x ∷ xs) zero d = x
  get_or (x ∷ xs) (suc i) d = get_or xs i d

  -- A write out of bounds changes nothing.
  abbrev pub set : List A → ℕ → A → List A
  set [] i v = []
  set (x ∷ xs) zero v = v ∷ xs
  set (x ∷ xs) (suc i) v = x ∷ set xs i v

  abbrev pub take : ℕ → List A → List A
  take zero xs = []
  take (suc n) [] = []
  take (suc n) (x ∷ xs) = x ∷ take n xs

  abbrev pub drop : ℕ → List A → List A
  drop zero xs = xs
  drop (suc n) [] = []
  drop (suc n) (x ∷ xs) = drop n xs

  abbrev pub replicate : ℕ → A → List A
  replicate zero a = []
  replicate (suc n) a = a ∷ replicate n a

  abbrev pub All {κ} : (A → Type κ) → List A → Type κ
  All P [] = Unit
  All P (x ∷ xs) = P x × All P xs

module _ {ℓ} {A : Type ℓ} where
  pub length-append : (xs ys : List A) → length (xs ++ ys) ≡ length xs + length ys
  length-append [] ys = omega arith
  length-append (x ∷ xs) ys = omega (arith, length-append xs ys)

  pub length-set : (xs : List A) (i : ℕ) (v : A) → length (set xs i v) ≡ length xs
  length-set [] i v = refl
  length-set (x ∷ xs) zero v = refl
  length-set (x ∷ xs) (suc i) v = ap suc (length-set xs i v)

  pub length-take : (n : ℕ) (xs : List A) → length (take n xs) ≡ min n (length xs)
  length-take zero xs = omega arith
  length-take (suc n) [] = omega arith
  length-take (suc n) (x ∷ xs) = omega (arith, length-take n xs)

  pub length-drop : (n : ℕ) (xs : List A) → length (drop n xs) ≡ length xs - n
  length-drop zero xs = omega arith
  length-drop (suc n) [] = omega arith
  length-drop (suc n) (x ∷ xs) = omega (arith, length-drop n xs)

  pub length-replicate : (n : ℕ) (a : A) → length (replicate n a) ≡ n
  length-replicate zero a = refl
  length-replicate (suc n) a = ap suc (length-replicate n a)

  pub take-append-drop : (n : ℕ) (xs : List A) → take n xs ++ drop n xs ≡ xs
  take-append-drop zero xs = refl
  take-append-drop (suc n) [] = refl
  take-append-drop (suc n) (x ∷ xs) = rw (take-append-drop n xs)

  pub take-append : (n : ℕ) (xs ys : List A) → n ≤ length xs → take n (xs ++ ys) ≡ take n xs
  take-append zero xs ys h = refl
  take-append (suc n) [] ys h = absurd (omega arith)
  take-append (suc n) (x ∷ xs) ys h = ap (λ t. x ∷ t) (take-append n xs ys (omega arith))

  pub take-length : (xs : List A) → take (length xs) xs ≡ xs
  take-length [] = refl
  take-length (x ∷ xs) = ap (λ t. x ∷ t) (take-length xs)

  pub take-le : (xs : List A) (n : ℕ) → length xs ≤ n → take n xs ≡ xs
  take-le [] zero h = refl
  take-le [] (suc n) h = refl
  take-le (x ∷ xs) zero h = absurd (omega arith)
  take-le (x ∷ xs) (suc n) h = ap (λ t. x ∷ t) (take-le xs n (omega arith))

  -- A write inside the part that is taken, and one just behind it.
  pub take-set : (xs : List A) (n i : ℕ) (v : A) → take n (set xs i v) ≡ set (take n xs) i v
  take-set [] zero i v = refl
  take-set [] (suc n) i v = refl
  take-set (x ∷ xs) zero zero v = refl
  take-set (x ∷ xs) zero (suc i) v = refl
  take-set (x ∷ xs) (suc n) zero v = refl
  take-set (x ∷ xs) (suc n) (suc i) v = ap (λ t. x ∷ t) (take-set xs n i v)

  pub take-suc-set :
      (xs : List A) (n : ℕ) (v : A)
      → n < length xs
      → take (suc n) (set xs n v) ≡ take n xs ++ v ∷ []
  take-suc-set [] n v h = absurd (omega arith)
  take-suc-set (x ∷ xs) zero v h = refl
  take-suc-set (x ∷ xs) (suc n) v h = ap (λ t. x ∷ t) (take-suc-set xs n v (omega arith))

  pub take-suc :
      (xs : List A) (n : ℕ) (d : A)
      → n < length xs
      → take (suc n) xs ≡ take n xs ++ get_or xs n d ∷ []
  take-suc [] n d h = absurd (omega arith)
  take-suc (x ∷ xs) zero d h = refl
  take-suc (x ∷ xs) (suc n) d h = ap (λ t. x ∷ t) (take-suc xs n d (omega arith))

  pub get_or-drop : (xs : List A) (a n : ℕ) (d : A) → get_or (drop a xs) n d ≡ get_or xs (a + n) d
  get_or-drop xs zero n d = ap (λ k. get_or xs k d) (omega arith)
  get_or-drop [] (suc a) n d = refl
  get_or-drop (x ∷ xs) (suc a) n d =
      get_or-drop xs a n d
      ∙ ap {B = A} (λ k. get_or (x ∷ xs) k d) (let e : suc (a + n) ≡ suc a + n = omega arith in e)

  pub drop-length : (xs : List A) (n : ℕ) → length xs ≤ n → drop n xs ≡ []
  drop-length [] zero h = refl
  drop-length [] (suc n) h = refl
  drop-length (x ∷ xs) zero h = absurd (omega arith)
  drop-length (x ∷ xs) (suc n) h = drop-length xs n (omega arith)

  pub drop-get_or :
      (xs : List A) (n : ℕ) (d : A) → n < length xs → drop n xs ≡ get_or xs n d ∷ drop (n + 1) xs
  drop-get_or [] n d h = absurd (omega arith)
  drop-get_or (x ∷ xs) zero d h = refl
  drop-get_or (x ∷ xs) (suc n) d h =
      drop-get_or xs n d (omega arith)
      ∙ ap (λ k. get_or xs n d ∷ drop k (x ∷ xs))
          (let e : suc (n + 1) ≡ suc n + 1 = omega arith in e)

  pub drop-nil : (n : ℕ) → drop {A = A} n [] ≡ []
  drop-nil zero = refl
  drop-nil (suc n) = refl

  pub drop-drop : (a b : ℕ) (xs : List A) → drop a (drop b xs) ≡ drop (b + a) xs
  drop-drop a zero xs = ap (λ k. drop k xs) (omega arith)
  drop-drop a (suc b) [] = drop-nil a ∙ sym (drop-nil (suc b + a))
  drop-drop a (suc b) (x ∷ xs) =
      drop-drop a b xs
      ∙ ap (λ k. drop k (x ∷ xs)) (let e : suc (b + a) ≡ suc b + a = omega arith in e)

  pub get_or_congr : (xs : List A) (d : A) (i j : ℕ) → i ≡ j → get_or xs i d ≡ get_or xs j d
  get_or_congr xs d i j e = ap (λ k. get_or xs k d) e

  pub get_or-take : (xs : List A) (n i : ℕ) (d : A) → i < n → get_or (take n xs) i d ≡ get_or xs i d
  get_or-take [] zero i d h = refl
  get_or-take [] (suc n) i d h = refl
  get_or-take (x ∷ xs) zero i d h = absurd (omega arith)
  get_or-take (x ∷ xs) (suc n) zero d h = refl
  get_or-take (x ∷ xs) (suc n) (suc i) d h = get_or-take xs n i d (omega arith)

  pub get_or-set :
      (xs : List A) (i j : ℕ) (v d : A)
      → i < length xs
      → get_or (set xs i v) j d ≡ (if i == j then v else get_or xs j d)
  get_or-set [] i j v d h = absurd (omega arith)
  get_or-set (x ∷ xs) zero zero v d h = ground arith
  get_or-set (x ∷ xs) zero (suc j) v d h = ground arith
  get_or-set (x ∷ xs) (suc i) zero v d h = ground arith
  get_or-set (x ∷ xs) (suc i) (suc j) v d h = ground (arith, get_or-set xs i j v d)

  pub get_or-append :
      (xs ys : List A) (i : ℕ) (d : A)
      → get_or (xs ++ ys) i d
        ≡ (if ltb i (length xs) then get_or xs i d else get_or ys (i - length xs) d)
  get_or-append [] ys i d = ground arith
  get_or-append (x ∷ xs) ys zero d = ground arith
  get_or-append (x ∷ xs) ys (suc i) d = ground (arith, get_or-append xs ys i d)

  -- Lists with the same items at the same places are equal.
  pub get_or_ext :
      (d : A) (xs ys : List A)
      → length xs ≡ length ys
      → ((i : ℕ) → i < length xs → get_or xs i d ≡ get_or ys i d)
      → xs ≡ ys
  get_or_ext d [] [] e h = refl
  get_or_ext d [] (y ∷ ys) e h = absurd (omega arith)
  get_or_ext d (x ∷ xs) [] e h = absurd (omega arith)
  get_or_ext d (x ∷ xs) (y ∷ ys) e h =
      ap₂ ◌∷◌ (h 0 (omega arith))
        (get_or_ext d xs ys (omega arith) (λ i lt. h (suc i) (omega arith)))

  pub length-reverse : (xs : List A) → length (reverse xs) ≡ length xs
  length-reverse [] = refl
  length-reverse (x ∷ xs) =
      ap length (reverse-append (x ∷ []) xs)
      ∙ omega (arith, length-append (reverse xs) (x ∷ []), length-reverse xs)

  pub get_or-reverse :
      (xs : List A) (i : ℕ) (d : A)
      → i < length xs
      → get_or (reverse xs) i d ≡ get_or xs (length xs - 1 - i) d
  get_or-reverse [] i d h = absurd (omega arith)
  get_or-reverse (x ∷ xs) i d h =
      let n = length xs in
      rw (reverse-append (x ∷ []) xs, get_or-append (reverse xs) (x ∷ []) i d, length-reverse xs)
        (elim (dec_lt i n) [
          | yes p ↦ rw (lt→ltb i n p) (
              get_or-reverse xs i d p
              ∙ get_or_congr (x ∷ xs) d (suc (n - 1 - i)) (suc n - 1 - i) (omega arith))
          | no q ↦ rw (le→not_ltb i n (omega arith)) (
              get_or_congr (x ∷ []) d (i - n) 0 (omega arith)
              ∙ get_or_congr (x ∷ xs) d 0 (suc n - 1 - i) (omega arith))
        ])

  pub get_or_beyond : (xs : List A) (i : ℕ) {d : A} → length xs ≤ i → get_or xs i d ≡ d
  get_or_beyond [] i h = refl
  get_or_beyond (x ∷ xs) zero h = absurd (omega arith)
  get_or_beyond (x ∷ xs) (suc i) h = get_or_beyond xs i (omega arith)

  -- What stands at the front of a dropped list.
  pub front_of :
      (xs : List A) (n : ℕ) (c : A) (rest : List A) (d : A)
      → drop n xs ≡ c ∷ rest
      → get_or xs n d ≡ c
  front_of [] n c rest d e = cc (drop-nil n)
  front_of (x ∷ xs) zero c rest d e = cc
  front_of (x ∷ xs) (suc n) c rest d e = front_of xs n c rest d e

  pub tail_of :
      (xs : List A) (n : ℕ) (c : A) (rest : List A) → drop n xs ≡ c ∷ rest → drop (n + 1) xs ≡ rest
  tail_of [] n c rest e = cc (drop-nil n)
  tail_of (x ∷ xs) zero c rest e = cc
  tail_of (x ∷ xs) (suc n) c rest e =
      ap (λ k. drop k (x ∷ xs)) (let e' : suc n + 1 ≡ suc (n + 1) = omega arith in e')
      ∙ tail_of xs n c rest e

  pub length-map {κ} : {B : Type κ} (xs : List A) (f : A → B) → length (map f xs) ≡ length xs
  length-map [] f = refl
  length-map (x ∷ xs) f = ap suc (length-map xs f)

  pub take-map {κ} :
      {B : Type κ} (n : ℕ) (xs : List A) (f : A → B) → take n (map f xs) ≡ map f (take n xs)
  take-map zero xs f = refl
  take-map (suc n) [] f = refl
  take-map (suc n) (x ∷ xs) f = ap (λ t. f x ∷ t) (take-map n xs f)

  pub drop-map {κ} :
      {B : Type κ} (n : ℕ) (xs : List A) (f : A → B) → drop n (map f xs) ≡ map f (drop n xs)
  drop-map zero xs f = refl
  drop-map (suc n) [] f = refl
  drop-map (suc n) (x ∷ xs) f = drop-map n xs f

module _ {ℓ κ} {A : Type ℓ} (P : A → Type κ) where
  pub All-append : (xs ys : List A) → All P xs → All P ys → All P (xs ++ ys)
  All-append [] ys h k = k
  All-append (x ∷ xs) ys h k = (h.0, All-append xs ys h.1 k)

  pub All-take : (n : ℕ) (xs : List A) → All P xs → All P (take n xs)
  All-take zero xs h = tt
  All-take (suc n) [] h = tt
  All-take (suc n) (x ∷ xs) h = (h.0, All-take n xs h.1)

  pub All-drop : (n : ℕ) (xs : List A) → All P xs → All P (drop n xs)
  All-drop zero xs h = h
  All-drop (suc n) [] h = tt
  All-drop (suc n) (x ∷ xs) h = All-drop n xs h.1

  pub All-set : (xs : List A) (i : ℕ) (v : A) → P v → All P xs → All P (set xs i v)
  All-set [] i v p h = tt
  All-set (x ∷ xs) zero v p h = (p, h.1)
  All-set (x ∷ xs) (suc i) v p h = (h.0, All-set xs i v p h.1)

  pub All-replicate : (n : ℕ) (a : A) → P a → All P (replicate n a)
  All-replicate zero a p = tt
  All-replicate (suc n) a p = (p, All-replicate n a p)

  pub All-get_or : (xs : List A) (i : ℕ) (d : A) → i < length xs → All P xs → P (get_or xs i d)
  All-get_or [] i d h a = absurd (omega arith)
  All-get_or (x ∷ xs) zero d h a = a.0
  All-get_or (x ∷ xs) (suc i) d h a = All-get_or xs i d (omega arith) a.1

pub All-imp {ℓ κ μ} :
    {A : Type ℓ} {P : A → Type κ} {Q : A → Type μ} (xs : List A)
    → ((a : A) → P a → Q a)
    → All P xs
    → All Q xs
All-imp [] f h = tt
All-imp (x ∷ xs) f h = (f x h.0, All-imp xs f h.1)
