-- ===== src/OptMalloc/Blocks.antt =====
-- The blocks of chal2/starter-ch02/opt_malloc.c: how many of them cover a byte.
use cs.Base.{
  ℕ, zero, suc, ◌+◌, ◌*◌, ◌^◌, ◌≤◌, ◌<◌, ◌≡◌, ◌≢◌, refl, sym, ◌∙◌, ap, subst, List, [], ◌∷◌, ◌++◌,
  map, ◌&&◌, ◌⊎◌, inl, inr, arith, ltb, leb, ◌==◌, if◌then◌else◌, ==_iff, Bool-cases, ℕ_discrete,
}
use native.Mathlib.Omega.{pow_step}
use native.Mathlib.Nat.{pow-le-pow_right}
use cs.OptMalloc.{Memory, chunk, heap_size}

pub record Block : Type 0 where
  pub start : ℕ
  pub size : ℕ

abbrev pub block : ℕ → ℕ → Block
block a s = record { start = a; size = s }

-- 1 where the block covers the byte `x`.
unfoldable pub inside : ℕ → ℕ → ℕ → ℕ
inside a s x = if leb a x && ltb x (a + s) then 1 else 0

unfoldable pub covers : List Block → ℕ → ℕ
covers [] x = 0
covers (b ∷ bs) x = inside b.start b.size x + covers bs x

-- The free chunks of size `s` at the addresses.
abbrev pub chunks : ℕ → List ℕ → List Block
chunks s = map (λ a. block a s)

-- The free chunks of the lists below `n`.
unfoldable pub covers_free : ℕ → (ℕ → List ℕ) → ℕ → ℕ
covers_free zero free x = 0
covers_free (suc n) free x = covers_free n free x + covers (chunks (chunk n) (free n)) x

-- The bytes that `f` counts are the same.
abbrev pub Same : Memory → Memory → (ℕ → ℕ) → Type 0
Same mem mem' f = (x : ℕ) → 0 < f x → mem' x ≡ mem x

pub inside_in : (a s x : ℕ) → a ≤ x → x < a + s → inside a s x ≡ 1
unfolding inside
inside_in a s x lo hi = ground arith

pub inside_out : (a s x : ℕ) → (x < a) ⊎ (a + s ≤ x) → inside a s x ≡ 0
unfolding inside
inside_out a s x h = ground (arith, h)

pub inside_pos : (a s x : ℕ) → 0 < inside a s x → (a ≤ x) × (x < a + s)
unfolding inside
inside_pos a s x h = ground arith

pub inside_halves : (a s x : ℕ) → inside a (2 * s) x ≡ inside a s x + inside (a + s) s x
unfolding inside
inside_halves a s x = ground arith

pub covers-append : (ps bs : List Block) (x : ℕ) → covers (ps ++ bs) x ≡ covers ps x + covers bs x
unfolding covers
covers-append [] bs x = omega arith
covers-append (a ∷ ps) bs x = omega (arith, covers-append ps bs x)

-- Another list in one of the places.
unfoldable pub with_list : (ℕ → List ℕ) → ℕ → List ℕ → ℕ → List ℕ
with_list free i ps j = if j == i then ps else free j

pub with_list_at : (free : ℕ → List ℕ) (i : ℕ) (ps : List ℕ) → with_list free i ps i ≡ ps
unfolding with_list
with_list_at free i ps = rw ((==_iff i i).1 refl) refl

pub with_list-ne :
    (free : ℕ → List ℕ) (i j : ℕ) (ps : List ℕ) → j ≢ i → with_list free i ps j ≡ free j
unfolding with_list
with_list-ne free i j ps h = elim (Bool-cases (j == i)) [
  | inl e ↦ absurd (h ((==_iff j i).0 e))
  | inr e ↦ rw e refl
]

covers_free-below :
    (n : ℕ) (free : ℕ → List ℕ) (i : ℕ) (ps : List ℕ) (x : ℕ)
    → n ≤ i
    → covers_free n (with_list free i ps) x ≡ covers_free n free x
unfolding covers_free
covers_free-below zero free i ps x h = refl
covers_free-below (suc n) free i ps x h =
    let kept =
      ap (λ l. covers (chunks (chunk n) l) x)
        (with_list-ne free i n ps (λ e. absurd (omega arith))) in
    omega (arith, covers_free-below n free i ps x (omega arith), kept)

pub covers_free-with_list :
    (n : ℕ) (free : ℕ → List ℕ) (i : ℕ) (ps : List ℕ) (x : ℕ)
    → i < n
    → covers_free n (with_list free i ps) x + covers (chunks (chunk i) (free i)) x
      ≡ covers_free n free x + covers (chunks (chunk i) ps) x
unfolding covers_free
covers_free-with_list zero free i ps x h = absurd (omega arith)
covers_free-with_list (suc n) free i ps x h = elim (ℕ_discrete i n) [
  | yes e ↦
      let here = ap (λ l. covers (chunks (chunk i) l) x) (with_list_at free i ps) in
      let below = covers_free-below n free i ps x (omega arith) in
      rw (sym e) (
        omega (
          arith,
          here,
          subst (λ k. covers_free k (with_list free i ps) x ≡ covers_free k free x) (sym e) below,
        ))
  | no ne ↦
      let kept =
        ap (λ l. covers (chunks (chunk n) l) x) (with_list-ne free i n ps (λ e. ne (sym e))) in
      omega (arith, covers_free-with_list n free i ps x (omega arith), kept)
]

pub covers_free-cons :
    (free : ℕ → List ℕ) (i a : ℕ) (x : ℕ)
    → i < 16
    → covers_free 16 (with_list free i (a ∷ free i)) x
      ≡ covers_free 16 free x + inside a (chunk i) x
unfolding covers
covers_free-cons free i a x lt = omega (arith, covers_free-with_list 16 free i (a ∷ free i) x lt)

pub covers-free_at :
    (n : ℕ) (free : ℕ → List ℕ) (i : ℕ) (x : ℕ)
    → i < n
    → covers (chunks (chunk i) (free i)) x ≤ covers_free n free x
unfolding covers_free
covers-free_at zero free i x h = absurd (omega arith)
covers-free_at (suc n) free i x h = elim (ℕ_discrete i n) [
  | yes e ↦ rw e (omega arith)
  | no ne ↦ omega (arith, covers-free_at n free i x (omega arith))
]

pub chunk_double : (i : ℕ) → chunk (i + 1) ≡ 2 * chunk i
unfolding chunk
chunk_double i =
    ap (λ k. 2 ^ k) (let e : i + 1 + 5 ≡ suc (i + 5) = omega arith in e) ∙ pow_step 2 (i + 5)

pub chunk-le : (i j : ℕ) → i ≤ j → chunk i ≤ chunk j
unfolding chunk
chunk-le i j h = pow-le-pow_right (omega arith) (omega arith)

pub chunk_bounds : (i : ℕ) → i < 16 → (32 ≤ chunk i) × (chunk i ≤ heap_size)
unfolding chunk
chunk_bounds i h = (chunk-le 0 i (omega arith), chunk-le i 15 (omega arith))

pub chunk-lt : (i j : ℕ) → i < j → chunk i < chunk j
unfolding chunk
chunk-lt i j h =
    omega (arith, chunk_double i, chunk-le (i + 1) j (omega arith), chunk-le 0 i (omega arith))
