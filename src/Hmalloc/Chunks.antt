-- ===== src/Hmalloc/Chunks.antt =====
-- The abstract view of the free list: its chunks, an address and a size each, by address.
use cs.Base.{
  ℕ, ◌+◌, ◌*◌, ◌≤◌, ◌<◌, ◌≡◌, refl, ap, List, [], ◌∷◌, ◌++◌, Bool, false, ◌&&◌, ◌||◌, ◌⊎◌, inl, inr,
  arith, ltb, leb, length,
}

abbrev pub Chunk : Type 0
Chunk = ℕ × ℕ

-- The bytes of a chunk, and those of a list.
unfoldable pub inside : ℕ → ℕ → ℕ → Bool
inside p s x = leb p x && ltb x (p + s)

unfoldable pub covers : List Chunk → ℕ → Bool
unfolding inside
covers [] x = false
covers ((p, s) ∷ cs) x = inside p s x || covers cs x

-- What stands behind a list of chunks that `n` follows, and before it, and where it ends.
abbrev pub first_or : ℕ → List Chunk → ℕ
first_or n [] = n
first_or n ((p, s) ∷ cs) = p

abbrev pub last_or : ℕ → List Chunk → ℕ
last_or n [] = n
last_or n ((p, s) ∷ cs) = last_or p cs

abbrev pub end_or : ℕ → List Chunk → ℕ
end_or n [] = n
end_or n ((p, s) ∷ cs) = end_or (p + s) cs

-- From `lo` on the chunks lie in order, `gap` bytes apart at least, each large enough for a cell:
-- they are disjoint at gap 0, and none of them touch at gap 1.
pub data Spaced (gap : ℕ) : ℕ → List Chunk → Type 0 where
  over : {lo : ℕ} → Spaced gap lo []
  more :
      {lo p s : ℕ} {cs : List Chunk}
      → lo + gap ≤ p
      → 24 ≤ s
      → Spaced gap (p + s) cs
      → Spaced gap lo ((p, s) ∷ cs)

pub end_or-le : (gap lo : ℕ) (cs : List Chunk) → Spaced gap lo cs → lo ≤ end_or lo cs
end_or-le gap lo [] h = omega arith
end_or-le gap lo ((p, s) ∷ cs) (more a b c) = omega (arith, end_or-le gap (p + s) cs c)

pub Spaced-weaken :
    (cs : List Chunk) {gap gap' lo lo' : ℕ}
    → gap' ≤ gap
    → lo' + gap' ≤ lo + gap
    → Spaced gap lo cs
    → Spaced gap' lo' cs
Spaced-weaken [] h k s = over
Spaced-weaken ((p, s) ∷ cs) h k (more a b c) =
    more (omega arith) b (Spaced-weaken cs h (omega arith) c)

pub end_or-append : (n : ℕ) (us vs : List Chunk) → end_or n (us ++ vs) ≡ end_or (end_or n us) vs
end_or-append n [] vs = refl
end_or-append n ((p, s) ∷ us) vs = end_or-append (p + s) us vs

pub first_or-append :
    (n : ℕ) (us vs : List Chunk) → first_or n (us ++ vs) ≡ first_or (first_or n vs) us
first_or-append n [] vs = refl
first_or-append n ((p, s) ∷ us) vs = refl

pub last_or-append : (n : ℕ) (us vs : List Chunk) → last_or n (us ++ vs) ≡ last_or (last_or n us) vs
last_or-append n [] vs = refl
last_or-append n ((p, s) ∷ us) vs = last_or-append p us vs

pub covers-append :
    (us vs : List Chunk) (x : ℕ) → covers (us ++ vs) x ≡ (covers us x || covers vs x)
unfolding covers
covers-append [] vs x = refl
covers-append ((p, s) ∷ us) vs x = ground (arith, covers-append us vs x)

module _ {gap : ℕ} where
  pub Spaced-append :
      (us vs : List Chunk) {lo : ℕ}
      → Spaced gap lo us
      → Spaced gap (end_or lo us) vs
      → Spaced gap lo (us ++ vs)
  Spaced-append [] vs h k = k
  Spaced-append ((p, s) ∷ us) vs (more a b c) k = more a b (Spaced-append us vs c k)

  pub Spaced-front : (us vs : List Chunk) {lo : ℕ} → Spaced gap lo (us ++ vs) → Spaced gap lo us
  Spaced-front [] vs h = over
  Spaced-front ((p, s) ∷ us) vs (more a b c) = more a b (Spaced-front us vs c)

  pub Spaced-rest :
      (us vs : List Chunk) {lo : ℕ} → Spaced gap lo (us ++ vs) → Spaced gap (end_or lo us) vs
  Spaced-rest [] vs h = h
  Spaced-rest ((p, s) ∷ us) vs (more a b c) = Spaced-rest us vs c

  -- The last cell of a list lies in it.
  pub last_or-le :
      (lo n : ℕ) (us : List Chunk) → Spaced gap lo us → n < lo → last_or n us < end_or lo us
  last_or-le lo n [] h k = k
  last_or-le lo n ((p, s) ∷ us) (more a b c) k = last_or-le (p + s) p us c (omega arith)

  pub le-last_or : (lo n : ℕ) (us : List Chunk) → Spaced gap lo us → n ≤ lo → n ≤ last_or n us
  le-last_or lo n [] h k = omega arith
  le-last_or lo n ((p, s) ∷ us) (more a b c) k =
      omega (arith, le-last_or (p + s) p us c (omega arith))

  pub first_or-le : (lo : ℕ) (vs : List Chunk) → Spaced gap lo vs → lo ≤ first_or lo vs
  first_or-le lo [] h = omega arith
  first_or-le lo ((p, s) ∷ vs) (more a b c) = omega arith

  pub length-end_or :
      (lo : ℕ) (us : List Chunk) → Spaced gap lo us → lo + 24 * length us ≤ end_or lo us
  length-end_or lo [] h = omega arith
  length-end_or lo ((p, s) ∷ us) (more a b c) = omega (arith, length-end_or (p + s) us c)

-- A list is empty or ends with a chunk.
pub snoc-cases :
    (us : List Chunk) → (us ≡ []) ⊎ ((ts : List Chunk) × (c : Chunk) × (us ≡ ts ++ c ∷ []))
snoc-cases [] = inl refl
snoc-cases (c ∷ us) = elim (snoc-cases us) [
  | inl e ↦ inr ([], c, ap (λ t. c ∷ t) e)
  | inr (ts, d, e) ↦ inr (c ∷ ts, d, ap (λ t. c ∷ t) e)
]

-- Bytes outside the span of a list are not in it.
pub covers_below :
    (gap lo : ℕ) (cs : List Chunk) (x : ℕ) → Spaced gap lo cs → x < lo → covers cs x ≡ false
unfolding covers inside
covers_below gap lo [] x h k = refl
covers_below gap lo ((p, s) ∷ cs) x (more a b c) k =
    ground (arith, covers_below gap (p + s) cs x c (omega arith))

pub covers_above :
    (gap lo : ℕ) (cs : List Chunk) (x : ℕ)
    → Spaced gap lo cs
    → end_or lo cs ≤ x
    → covers cs x ≡ false
unfolding covers inside
covers_above gap lo [] x h k = refl
covers_above gap lo ((p, s) ∷ cs) x (more a b c) k =
    ground (arith, end_or-le gap (p + s) cs c, covers_above gap (p + s) cs x c k)
