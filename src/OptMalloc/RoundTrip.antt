-- ===== src/OptMalloc/RoundTrip.antt =====
-- xmalloc of chal2/starter-ch02/opt_malloc.c with xfree behind it, and with a request too large for a size_t.
use cs.Base.{
  ℕ, zero, suc, ◌+◌, ◌%◌, ◌^◌, ◌≤◌, ◌<◌, ◌≡◌, refl, sym, ◌∙◌, ap, subst, List, [], ◌∷◌, inl, inr,
  arith, lt→ltb, Succeeds, ◌>>=◌,
}
use cs.OptMalloc.{Heap, chunk, heap_size, at_least_cell, xmalloc, xfree, cell_size}
use cs.OptMalloc.Blocks.{Block, block, inside, covers, covers_free, chunk_bounds, Same}
use cs.OptMalloc.Chains.{IsHeap}
use cs.OptMalloc.Redistribute.{IsFresh, IsGrown}
use cs.OptMalloc.Alloc.{mapped_length, IsSize, xmalloc_helper-Handed, xmalloc-Handed}
use cs.OptMalloc.Free.{returned_chunk, xfree-Freed}

small_served : (size : ℕ) → size ≤ heap_size → at_least_cell size ≤ heap_size
unfolding at_least_cell
small_served size h = ground arith

IsSize-small : {size s : ℕ} → IsSize size s → size ≤ heap_size → s ≤ heap_size
IsSize-small (inl (i, e, (lt, fits, least))) small = omega (arith, e, (chunk_bounds i lt).1)
IsSize-small (inr (big, e)) small = absurd (omega (arith, big, small))

-- On a well-formed heap, for a request of at most a megabyte less eight bytes, and when `mmap` gives pages apart from all
-- blocks: `xmalloc` and then `xfree` of its result return, the heap is well formed with the same blocks in use,
-- whose bytes are the same, and the free bytes are those before and those of pages that were mapped.
pub xmalloc-xfree :
    (mmap : Heap → ℕ → ℕ) (size : ℕ) (h : Heap) (free : ℕ → List ℕ) (live : List Block)
    → IsHeap h free live
    → size + 8 ≤ heap_size
    → (let len = mapped_length (at_least_cell (size + 8)) in IsFresh free live (mmap h len) len)
    → Succeeds (xmalloc mmap size h >>= λ r. xfree r.0 r.1) λ h'.
      (free' : ℕ → List ℕ) × (pages : List Block) × (let len =
          mapped_length (at_least_cell (size + 8)) in
        IsGrown (mmap h len) len pages)
      × IsHeap h' free' live
      × ((x : ℕ) → covers_free 16 free' x ≡ covers_free 16 free x + covers pages x)
      × Same h.mem h'.mem (covers live)
unfolding covers
xmalloc-xfree mmap size h free live w small fresh =
    let ((item, h1), run, a) =
      xmalloc-Handed mmap size h free live w (omega (arith, small)) fresh in
    let s_small = IsSize-small a.sized (small_served (size + 8) small) in
    let (h2, run2, f) = xfree-Freed h1 a.free [] live (block a.start a.s) a.is_heap in
    (
      h2,
      rw run (ap (λ i. xfree i h1) a.item ∙ run2),
      (
        f.free,
        a.pages,
        a.from,
        f.is_heap,
        λ x.
            let back = ap (λ n. inside a.start n x) (returned_chunk a.s s_small) in
            omega (arith, f.whole x, back, a.whole x),
        λ x hit. f.same x hit ∙ a.same x hit,
      ),
    )

least_is_first : (i : ℕ) → ((j : ℕ) → j < i → chunk j < cell_size) → i ≡ 0
least_is_first zero least = refl
least_is_first (suc i) least =
    absurd (omega (arith, least 0 (omega arith), (chunk_bounds 0 (omega arith)).0))

-- On a well-formed heap, for a request of 2^64 - 8 to 2^64 - 1 bytes, and when `mmap` gives pages apart from all
-- blocks: `xmalloc` returns the bytes behind the header of a block of 32 bytes.
pub xmalloc-wraps :
    (mmap : Heap → ℕ → ℕ) (size : ℕ) (h : Heap) (free : ℕ → List ℕ) (live : List Block)
    → IsHeap h free live
    → 2 ^ 64 ≤ size + 8
    → size < 2 ^ 64
    → IsFresh free live (mmap h heap_size) heap_size
    → Succeeds (xmalloc mmap size h) λ r.
      (free' : ℕ → List ℕ) × (start : ℕ) × (r.0 ≡ start + 8)
      × IsHeap r.1 free' (block start 32 ∷ live)
unfolding xmalloc at_least_cell mapped_length chunk
xmalloc-wraps mmap size h free live w large word fresh =
    let request = (size + 8) % 2 ^ 64 in
    let tiny : request < 8 = omega arith in
    let served : at_least_cell request ≡ cell_size =
      rw (lt→ltb request cell_size (omega (arith, tiny))) refl in
    let fresh' =
      subst (λ n. IsFresh free live (mmap h (mapped_length n)) (mapped_length n)) (sym served)
        fresh in
    let (r, run, a) = xmalloc_helper-Handed mmap request h free live w fresh' in
    let size32 : a.s ≡ 32 = elim a.sized [
      | inl (i, e, (lt, fits, least)) ↦
          e ∙ ap chunk (least_is_first i (λ j before. omega (arith, least j before, served)))
      | inr (big, e) ↦ absurd (omega (arith, big, served))
    ] in
    (
      r,
      run,
      (
        a.free,
        a.start,
        a.item,
        subst (λ s. IsHeap r.1 a.free (block a.start s ∷ live)) size32 a.is_heap,
      ),
    )
