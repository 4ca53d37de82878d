-- ===== src/OptMalloc/Index.antt =====
-- get_fl_index of chal2/starter-ch02/opt_malloc.c.
use cs.Base.{
  ℕ, zero, suc, ◌+◌, ◌≤◌, ◌<◌, ◌≡◌, refl, sym, ◌∙◌, ap, subst, inl, inr, arith, leb, leb→le,
  not_leb→lt, Bool-cases, dec_lt, ret, Succeeds,
}
use cs.OptMalloc.{chunk, heap_size, index_from, get_fl_index}
use cs.OptMalloc.Blocks.{chunk_bounds, chunk-lt}

-- The first list whose chunks are large enough.
abbrev pub Fits : ℕ → ℕ → Type 0
Fits size k = (k < 16) × (size ≤ chunk k) × ((j : ℕ) → j < k → chunk j < size)

chunk_last : chunk 15 ≡ heap_size
unfolding chunk
chunk_last = refl

index_from-Fits :
    (n i size : ℕ)
    → n + i ≡ 16
    → size ≤ heap_size
    → ((j : ℕ) → j < i → chunk j < size)
    → Succeeds (index_from n i size) (Fits size)
unfolding index_from
index_from-Fits zero i size e small below =
    absurd (omega (arith, below 15 (omega arith), chunk_last, small))
index_from-Fits (suc n) i size e small below = elim (Bool-cases (leb size (chunk i))) [
  | inl fits ↦ (i, rw fits refl, (omega arith, leb→le size (chunk i) fits, below))
  | inr less ↦
      let (k, run, fits) = index_from-Fits n (i + 1) size (omega arith) small (λ j lt.
        elim (dec_lt j i) [
          | yes before ↦ below j before
          | no here ↦
              let e' : j ≡ i = omega (arith, lt, here) in
              subst (λ m. chunk m < size) (sym e') (not_leb→lt size (chunk i) less)
        ]) in
      (k, rw less run, fits)
]

-- For a size of at most a megabyte `get_fl_index` returns the first list whose chunks have that size or more.
pub get_fl_index-Fits : (size : ℕ) → size ≤ heap_size → Succeeds (get_fl_index size) (Fits size)
unfolding get_fl_index
get_fl_index-Fits size small =
    index_from-Fits 16 0 size (omega arith) small (λ j lt. absurd (omega arith))

pub get_fl_index-chunk : (i : ℕ) → i < 16 → get_fl_index (chunk i) ≡ ret i
get_fl_index-chunk i lt =
    let (k, run, (below, fits, least)) = get_fl_index-Fits (chunk i) (chunk_bounds i lt).1 in
    let same : k ≡ i = elim (dec_lt k i) [
      | yes before ↦ absurd (omega (arith, fits, chunk-lt k i before))
      | no behind ↦ elim (dec_lt i k) [
        | yes h ↦ absurd (omega (arith, least i h))
        | no h ↦ omega (arith, behind, h)
      ]
    ] in
    run ∙ ap ret same
