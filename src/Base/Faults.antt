-- ===== src/Base/Faults.antt =====
-- What a C function does besides returning: a failed assertion, or behaviour that C leaves undefined.
use Prim.Native.Nat.{ℕ, zero, suc, ◌+◌, ◌^◌, ◌<◌}
use mathlib.Core.Path.{◌≡◌, refl, sym, ap, ◌∙◌}
use mathlib.Core.Bool.{Bool, true, false}
use mathlib.Core.List.{List, [], ◌∷◌}
use native.Mathlib.Omega.{arith}
use cs.Base.Lists.{length, get_or, set, take, drop, drop-nil}
use cs.Base.Tests.{ltb, if◌then◌else◌, lt→ltb}

-- `out_of_fuel` is the model's own: a loop or a recursion was given too few rounds.
pub data Fault : Type 0 where
  assertion out_of_bounds null_pointer uninitialised overflow division_by_zero out_of_fuel : Fault

pub data Outcome {ℓ} (A : Type ℓ) : Type ℓ where
  ret : A → Outcome A
  fault : Fault → Outcome A

infixl 5 ◌>>=◌ ◌>>◌
abbrev pub ◌>>=◌ {ℓ κ} : {X : Type ℓ} {Y : Type κ} → Outcome X → (X → Outcome Y) → Outcome Y
fault why >>= next = fault why
ret x >>= next = next x

abbrev pub ◌>>◌ {ℓ} : {B : Type ℓ} → Outcome (Unit {0}) → Outcome B → Outcome B
m >> k = m >>= λ _. k

-- `assert(b)`
abbrev pub assert : Bool → Outcome (Unit {0})
assert true = ret tt
assert false = fault assertion

-- An `int` result: signed overflow is undefined.
abbrev pub int : ℕ → Outcome ℕ
int n = if ltb n (2 ^ 31) then ret n else fault overflow

-- The run returns, with a value that satisfies `P`.
abbrev pub Succeeds {ℓ κ} : {A : Type ℓ} → Outcome A → (A → Type κ) → Type (ℓ ⊔ κ)
Succeeds {A} r P = (a : A) × (r ≡ ret a) × P a

module _ {ℓ} {A : Type ℓ} where
  -- `xs[i]` and `xs[i] = v`
  unfoldable pub read : List A → ℕ → Outcome A
  read (x ∷ xs) (suc i) = read xs i
  read (x ∷ xs) zero = ret x
  read [] _ = fault out_of_bounds

  unfoldable pub store : List A → ℕ → A → Outcome (List A)
  store xs i v = if ltb i (length xs) then ret (set xs i v) else fault out_of_bounds

  pub read-get_or : (xs : List A) (i : ℕ) (d : A) → i < length xs → read xs i ≡ ret (get_or xs i d)
  unfolding read
  read-get_or (x ∷ xs) (suc i) d inside = read-get_or xs i d (omega arith)
  read-get_or (x ∷ xs) zero d inside = refl
  read-get_or [] i d inside = elim inside [ ]

  pub store-set : (xs : List A) (i : ℕ) (v : A) → i < length xs → store xs i v ≡ ret (set xs i v)
  unfolding store
  store-set xs i v h = rw (lt→ltb i (length xs) h)

-- What stands at the front of a dropped list.
module _ {ℓ} {A : Type ℓ} where
  pub read-drop_cons :
      (xs : List A) (i n : ℕ) (x : A) (rest : List A)
      → take (suc n) (drop i xs) ≡ x ∷ rest
      → (read xs i ≡ ret x) × (take n (drop (i + 1) xs) ≡ rest)
  unfolding read
  read-drop_cons [] i n x rest e =
      let e' : [] ≡ x ∷ rest = sym (ap (take (suc n)) (drop-nil i)) ∙ e in cc
  read-drop_cons (y ∷ ys) zero n x rest e = (cc, cc)
  read-drop_cons (y ∷ ys) (suc i) n x rest e =
      let (found, later) = read-drop_cons ys i n x rest e in
      (
        found,
        ap (λ k. take n (drop k (y ∷ ys))) (let e' : suc i + 1 ≡ suc (i + 1) = omega arith in e')
            ∙ later,
      )

-- `for (ii = i; ii < i + n; ii++) s = body ii s`, by the rounds left.
unfoldable pub for_range {ℓ} : {S : Type ℓ} → ℕ → ℕ → (ℕ → S → Outcome S) → S → Outcome S
for_range zero i body s = ret s
for_range (suc n) i body s = body i s >>= λ s'. for_range n (i + 1) body s'

-- The invariant rule for that loop.
pub for_range-Succeeds {ℓ κ} :
    {S : Type ℓ} (P : ℕ → S → Type κ) (body : ℕ → S → Outcome S) (end : ℕ)
    → ((i : ℕ) (s : S) → i < end → P i s → Succeeds (body i s) (P (i + 1)))
    → (n i : ℕ) (s : S) → i + n ≡ end
    → P i s
    → Succeeds (for_range n i body s) (P end)
unfolding for_range
for_range-Succeeds P body end keep zero i s e h =
    let e' : i ≡ end = omega arith in (s, refl, rw e' at h)
for_range-Succeeds P body end keep (suc n) i s e h =
    let (s', run, p) = keep i s (omega arith) h in
    let (r, rest, q) = for_range-Succeeds P body end keep n (i + 1) s' (omega arith) p in
    (r, rw run rest, q)
