-- ===== src/Hmalloc/Place.antt =====
-- A new cell between the chunks before it and those behind it.
use cs.Base.{
  ℕ, ◌+◌, ◌≤◌, ◌<◌, ◌≡◌, refl, ◌∙◌, List, [], ◌∷◌, ◌++◌, true, false, arith, ◌==◌, if◌then◌else◌,
}
use cs.Hmalloc.{cell, Memory}
use cs.Hmalloc.Chunks.{
  Chunk, first_or, last_or, end_or, Spaced, more, end_or-le, Spaced-front, Spaced-rest, last_or-le,
}
use cs.Hmalloc.Linked.{
  Linked, link, Linked-append, Linked-front, Linked-back, relink_next, relink_last,
}

pub not_first :
    (vs : List Chunk) {gap lo : ℕ} (x : ℕ)
    → Spaced gap lo vs
    → 1 ≤ x
    → x < lo
    → (x == first_or 0 vs) ≡ false
not_first [] x s h k = ground arith
not_first ((a, t) ∷ vs) x (more b c d) h k = ground arith

-- The memory with the cell `p` between the lists `us` and `vs`.
abbrev pub inserted : Memory → List Chunk → ℕ → ℕ → List Chunk → Memory
inserted mem us p s vs x =
    if x == p
    then cell s (first_or 0 vs) (last_or 0 us)
    else (if x == last_or 0 us
        then record (mem x) { next = p }
        else (if x == first_or 0 vs then record (mem x) { last = p } else mem x))

-- The new cell lies behind the front part.
pub behind :
    (us vs : List Chunk) (p s : ℕ)
    → Spaced 0 1 (us ++ (p, s) ∷ vs)
    → (1 ≤ p) × (end_or 1 us ≤ p) × (last_or 0 us < p) × (24 ≤ s) × Spaced 0 (p + s) vs
behind us vs p s spaced = go (Spaced-rest us ((p, s) ∷ vs) spaced)
  where
    front : Spaced 0 1 us
    front = Spaced-front us ((p, s) ∷ vs) spaced

    go :
        Spaced 0 (end_or 1 us) ((p, s) ∷ vs)
        → (1 ≤ p) × (end_or 1 us ≤ p) × (last_or 0 us < p) × (24 ≤ s) × Spaced 0 (p + s) vs
    go (more a b c) = (
      omega (arith, end_or-le 0 1 us front),
      omega arith,
      omega (arith, last_or-le 1 0 us front (omega arith)),
      b,
      c,
    )

pub insert-Linked :
    {mem mem' : Memory} (us vs : List Chunk) (p s : ℕ)
    → Spaced 0 1 (us ++ (p, s) ∷ vs)
    → Linked mem 0 (us ++ vs) 0
    → ((x : ℕ) → 1 ≤ x → mem' x ≡ inserted mem us p s vs x)
    → Linked mem' 0 (us ++ (p, s) ∷ vs) 0
insert-Linked us vs p s spaced h same =
    let (low, lo, lt, room, back) = behind us vs p s spaced in
    let here : (p == p) ≡ true = ground arith in
    Linked-append us ((p, s) ∷ vs)
      (relink_next us p (Spaced-front us ((p, s) ∷ vs) spaced)
        (λ x l u.
          same x l
          ∙ (let not_p : (x == p) ≡ false = ground arith in
              let not_v : (x == first_or 0 vs) ≡ false = not_first vs x back l (omega arith) in
              rw (not_p, not_v) refl))
        (Linked-front us vs h))
      (link (same p low ∙ rw here refl) (
        relink_last vs p back
          (λ x l u.
            same x (omega arith)
            ∙ (let not_p : (x == p) ≡ false = ground arith in
                let not_u : (x == last_or 0 us) ≡ false = ground arith in rw (not_p, not_u) refl))
          (Linked-back us vs h)))
