-- ===== src/Hmalloc/Search.antt =====
-- `search_size` finds the first chunk that is large enough.
use cs.Base.{
  ℕ, zero, suc, ◌+◌, ◌≤◌, ◌<◌, ◌≡◌, refl, ap, List, [], ◌∷◌, ◌++◌, true, false, ◌⊎◌, inl, inr,
  arith, leb, ◌==◌, le→leb, lt→not_leb, dec_lt, length, All,
}
use cs.Base.{ret}
use cs.Hmalloc.{Cell, Memory, search_size}
use cs.Hmalloc.Chunks.{Chunk, first_or, Spaced, more, covers, inside, covers_below, Spaced-weaken}
use cs.Hmalloc.Linked.{Linked, link}

abbrev pub AllSmall : ℕ → List Chunk → Type 0
AllSmall n cs = All (λ c. c.1 < n) cs

-- The first chunk of `n` bytes or more.
pub record Hit (n : ℕ) (cs : List Chunk) (p : ℕ) : Type 0 where
  pub us : List Chunk
  pub s : ℕ
  pub vs : List Chunk
  pub parts : cs ≡ us ++ (p, s) ∷ vs
  pub small : AllSmall n us
  pub large : n ≤ s

-- `search_size` returns the first chunk that is large enough, or NULL when there is none.
pub search_size-Hit :
    (n : ℕ) (mem : Memory) (cs : List Chunk) (f : ℕ) {lo prev : ℕ}
    → 1 ≤ lo
    → Spaced 0 lo cs
    → Linked mem prev cs 0
    → length cs < f
    → ((search_size f mem (first_or 0 cs) n ≡ ret 0) × AllSmall n cs)
      ⊎ ((p : ℕ) × (search_size f mem (first_or 0 cs) n ≡ ret p) × (1 ≤ p) × Hit n cs p)
unfolding search_size
search_size-Hit n mem cs zero low sp lk lt = absurd (omega arith)
search_size-Hit n mem [] (suc f) low sp lk lt = inl (refl, tt)
search_size-Hit n mem ((a, t) ∷ cs) (suc f) low (more b c d) (link e lk) lt =
    let nz : (a == 0) ≡ false = ground arith in
    let size : (mem a).size ≡ t = ap (λ (w : Cell). w.size) e in
    let next : (mem a).next ≡ first_or 0 cs = ap (λ (w : Cell). w.next) e in
    elim (dec_lt t n) [
      | yes k ↦
          let small : leb n t ≡ false = lt→not_leb n t k in
          elim (search_size-Hit n mem cs f (omega arith) d lk (omega arith)) [
            | inl (run, all) ↦ inl (rw (nz, size, small, next) run, (k, all))
            | inr (p, run, pos', hit) ↦ inr (
              p,
              rw (nz, size, small, next) run,
              pos',
              record {
                us = (a, t) ∷ hit.us;
                s = hit.s;
                vs = hit.vs;
                parts = ap (λ w. (a, t) ∷ w) hit.parts;
                small = (k, hit.small);
                large = hit.large;
              },
            )
          ]
      | no k ↦
          let enough : leb n t ≡ true = le→leb n t (omega arith) in
          inr (
            a,
            rw (nz, size, enough),
            omega arith,
            record { us = []; s = t; vs = cs; parts = refl; small = tt; large = omega arith },
          )
    ]

-- A run of bytes that are all free lies in one chunk of a list in which none touch.
pub not-AllSmall :
    (cs : List Chunk) (p m n : ℕ) {lo : ℕ}
    → Spaced 1 lo cs
    → 1 ≤ m
    → n ≤ m
    → ((x : ℕ) → inside p m x ≡ true → covers cs x ≡ true)
    → ¬ AllSmall n cs
unfolding covers inside
not-AllSmall [] p m n sp pos' le all small = let h = all p in absurd (ground arith)
not-AllSmall ((a, t) ∷ cs) p m n (more b c d) pos' le all small = elim (dec_lt p (a + t)) [
  | yes k ↦
      let gap =
        covers_below 0 (a + t + 1) cs (a + t) (Spaced-weaken cs (omega arith) (omega arith) d)
          (omega arith) in
      let h = all (a + t) in
      let first =
        covers_below 0 a ((a, t) ∷ cs) p
          (more (omega arith) c (Spaced-weaken cs (omega arith) (omega arith) d)) in
      let h' = all p in
      elim (dec_lt p a) [
        | yes q ↦ let z = first q in absurd (ground arith)
        | no q ↦ let s = small.0 in absurd (ground arith)
      ]
  | no k ↦ not-AllSmall cs p m n d pos' le (λ x i. let h = all x i in ground arith) small.1
]
