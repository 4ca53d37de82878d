-- ===== src/Hmalloc/Linked.antt =====
-- The cells in memory of a list of chunks, linked both ways, and what keeps them.
use cs.Base.{
  ℕ, ◌+◌, ◌≤◌, ◌<◌, ◌≡◌, refl, ◌∙◌, ap, List, [], ◌∷◌, ◌++◌, true, false, arith, ◌==◌,
  if◌then◌else◌,
}
use cs.Hmalloc.{Cell, cell, Memory}
use cs.Hmalloc.Chunks.{more, Chunk, first_or, last_or, end_or, Spaced, end_or-le, le-last_or}

-- The cells of `cs`: the first has `prev` before it, the last has `n` behind it.
pub data Linked (mem : Memory) : ℕ → List Chunk → ℕ → Type 0 where
  over : {prev n : ℕ} → Linked mem prev [] n
  link :
      {prev n p s : ℕ} {cs : List Chunk}
      → mem p ≡ cell s (first_or n cs) prev
      → Linked mem p cs n
      → Linked mem prev ((p, s) ∷ cs) n

pub Linked-append :
    (us vs : List Chunk) {mem : Memory} {prev n : ℕ}
    → Linked mem prev us (first_or n vs)
    → Linked mem (last_or prev us) vs n
    → Linked mem prev (us ++ vs) n
Linked-append [] vs h k = k
Linked-append ((p, s) ∷ []) vs (link e h) k = link e k
Linked-append ((p, s) ∷ (q, t) ∷ us) vs (link e h) k = link e (Linked-append ((q, t) ∷ us) vs h k)

pub Linked-front :
    (us vs : List Chunk) {mem : Memory} {prev n : ℕ}
    → Linked mem prev (us ++ vs) n
    → Linked mem prev us (first_or n vs)
Linked-front [] vs h = over
Linked-front ((p, s) ∷ []) vs (link e h) = link e over
Linked-front ((p, s) ∷ (q, t) ∷ us) vs (link e h) = link e (Linked-front ((q, t) ∷ us) vs h)

pub Linked-back :
    (us vs : List Chunk) {mem : Memory} {prev n : ℕ}
    → Linked mem prev (us ++ vs) n
    → Linked mem (last_or prev us) vs n
Linked-back [] vs h = h
Linked-back ((p, s) ∷ us) vs (link e h) = Linked-back us vs h

module _ {mem mem' : Memory} where
  -- Changes outside the span of the list do not matter.
  pub frame :
      (cs : List Chunk) {lo prev n : ℕ}
      → Spaced 0 lo cs
      → ((x : ℕ) → lo ≤ x → x < end_or lo cs → mem' x ≡ mem x)
      → Linked mem prev cs n
      → Linked mem' prev cs n
  frame [] s same h = over
  frame ((p, s) ∷ cs) (more a b c) same (link e h) =
      let le = end_or-le 0 (p + s) cs c in
      link (same p (omega arith) (omega arith) ∙ e) (frame cs c (λ x l u. same x (omega arith) u) h)

  -- The last cell gets another successor.
  pub relink_next :
      (us : List Chunk) (m : ℕ) {lo prev n : ℕ}
      → Spaced 0 lo us
      → ((x : ℕ)
          → lo ≤ x
          → x < end_or lo us
          → mem' x ≡ (if x == last_or 0 us then record (mem x) { next = m } else mem x))
      → Linked mem prev us n
      → Linked mem' prev us m
  relink_next [] m s same h = over
  relink_next ((p, s) ∷ []) m (more a b c) same (link e h) =
      let here : (p == p) ≡ true = ground arith in
      let change : Cell → Cell = λ w. record w { next = m } in
      link (same p (omega arith) (omega arith) ∙ rw here (ap change e)) over
  relink_next ((p, s) ∷ (q, t) ∷ us) m (more a b (more a' b' c)) same (link e h) =
      let le = end_or-le 0 (q + t) us c in
      let far = le-last_or (q + t) q us c (omega arith) in
      let no_match : (p == last_or q us) ≡ false = ground arith in
      link (same p (omega arith) (omega arith) ∙ rw no_match e)
        (relink_next ((q, t) ∷ us) m (more a' b' c) (λ x l u. same x (omega arith) u) h)

  -- The first cell gets another predecessor.
  pub relink_last :
      (vs : List Chunk) (q' : ℕ) {lo q n : ℕ}
      → Spaced 0 lo vs
      → ((x : ℕ)
          → lo ≤ x
          → x < end_or lo vs
          → mem' x ≡ (if x == first_or 0 vs then record (mem x) { last = q' } else mem x))
      → Linked mem q vs n
      → Linked mem' q' vs n
  relink_last [] q' s same h = over
  relink_last ((p, s) ∷ vs) q' (more a b c) same (link e h) =
      let le = end_or-le 0 (p + s) vs c in
      let here : (p == p) ≡ true = ground arith in
      let change : Cell → Cell = λ w. record w { last = q' } in
      link (same p (omega arith) (omega arith) ∙ rw here (ap change e)) (
        frame vs c
          (λ x l u. same x (omega arith) u ∙ (let f : (x == p) ≡ false = ground arith in rw f refl))
          h)
