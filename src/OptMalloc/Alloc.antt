-- ===== src/OptMalloc/Alloc.antt =====
-- xmalloc of chal2/starter-ch02/opt_malloc.c.
use cs.Base.{
  ℕ, ◌+◌, ◌%◌, ◌^◌, ◌≤◌, ◌<◌, ◌≡◌, refl, sym, ◌∙◌, ap, subst, List, [], ◌∷◌, ◌⊎◌, inl, inr, arith,
  ltb, if◌then◌else◌, ltb→lt, lt→ltb, le→not_ltb, not_ltb→le, Bool-cases, ret, Succeeds, ◌>>=◌,
  ◌>>◌, assert,
}
use cs.OptMalloc.{
  Memory, Heap, put64, chunk, heap_size, pop, redistribute, at_least_cell, xmalloc_helper, xmalloc,
}
use cs.OptMalloc.Words.{put64-outside, get64-put64}
use cs.OptMalloc.Blocks.{Block, block, inside, covers, covers_free, chunk_bounds, Same, with_list}
use cs.OptMalloc.Chains.{IsHeap, Only, IsHeap-add}
use cs.OptMalloc.Index.{Fits, get_fl_index-Fits}
use cs.OptMalloc.Lists.{pop_lem}
use cs.OptMalloc.Refill.{far}
use cs.OptMalloc.Redistribute.{IsGrown, IsFresh, redistribute-Refilled}

-- The block for a request of `size` bytes, with its header: a chunk of the first list that has chunks
-- large enough, or pages of its own.
abbrev pub IsSize : ℕ → ℕ → Type 0
IsSize size s = ((i : ℕ) × (s ≡ chunk i) × Fits size i) ⊎ ((heap_size < size) × (s ≡ size))

-- What `xmalloc` asks `mmap` for, if it does.
unfoldable pub mapped_length : ℕ → ℕ
mapped_length size = if ltb heap_size size then size else heap_size

-- The block behind the header at `start` is in use; it and the chunks that are free now were free before
-- or are in new pages; and the bytes of the other blocks in use are the same.
pub record Handed (h : Heap) (free0 : ℕ → List ℕ) (live : List Block) (page size : ℕ) (r : ℕ × Heap)
    : Type 0 where
  pub pages : List Block
  pub from : IsGrown page (mapped_length size) pages
  pub free : ℕ → List ℕ
  pub start : ℕ
  pub s : ℕ
  pub item : r.0 ≡ start + 8
  pub sized : IsSize size s
  pub is_heap : IsHeap r.1 free (block start s ∷ live)
  pub whole :
      (x : ℕ) → covers_free 16 free x + inside start s x ≡ covers_free 16 free0 x + covers pages x
  pub same : Same h.mem r.1.mem (covers live)

pub IsSize-le : {size s : ℕ} → IsSize size s → size ≤ s
IsSize-le (inl (i, e, (lt, fits, least))) = omega (arith, e, fits)
IsSize-le (inr (big, e)) = omega (arith, e)

chunk_length : (size : ℕ) → size ≤ heap_size → mapped_length size ≡ heap_size
unfolding mapped_length
chunk_length size small = rw (le→not_ltb heap_size size small) refl

page_length : (size : ℕ) → heap_size < size → mapped_length size ≡ size
unfolding mapped_length
page_length size big = rw (lt→ltb heap_size size big) refl

from_list :
    (mmap : Heap → ℕ → ℕ) (size i : ℕ) (h : Heap) (free : ℕ → List ℕ) (live : List Block)
    → Fits size i
    → IsHeap h free live
    → IsFresh free live (mmap h heap_size) heap_size
    → Succeeds
        (redistribute mmap h i >>= λ h'. pop h' i >>= λ r. assert (ltb 0 r.0) >> ret (r.0 + 8, r.1))
        (Handed h free live (mmap h (mapped_length size)) size)
from_list mmap size i h free live (lt, fits, least) w fresh =
    let (h1, run1, (pages, from, r1)) = redistribute-Refilled mmap i h free live lt w fresh in
    let ((p, h2), run2, (_, kept, nz, left, w2)) =
      pop_lem h1 r1.free live i r1.first r1.rest lt r1.found r1.is_heap in
    let len : mapped_length size ≡ heap_size =
      chunk_length size (omega (arith, fits, (chunk_bounds i lt).1)) in
    let from' = subst (λ n. IsGrown (mmap h n) n pages) (sym len) from in
    (
      (p + 8, h2),
      rw run1 (rw run2 (rw (lt→ltb 0 p nz) refl)),
      record {
        pages = pages;
        from = from';
        whole = λ x. left x ∙ r1.whole x;
        free = with_list r1.free i r1.rest;
        start = p;
        s = chunk i;
        item = refl;
        sized = inl (i, refl, (lt, fits, least));
        is_heap = w2;
        same = λ x hit. ap (λ (m : Memory). m x) kept ∙ r1.same x hit;
      },
    )

from_pages :
    (size page : ℕ) (h : Heap) (free : ℕ → List ℕ) (live : List Block)
    → heap_size < size
    → IsHeap h free live
    → IsFresh free live page size
    → Handed h free live page size (page + 8, record h { mem = put64 h.mem page size })
unfolding covers
from_pages size page h free live big w (nz, fits, apart) =
    let mem' = put64 h.mem page size in
    let only : Only h.mem mem' (block page size) = λ x out.
      put64-outside h.mem page size x
        (elim (far page size x out) [ inl l ↦ inl l | inr r ↦ inr (omega (arith, r, big)) ]) in
    record {
      pages = block page size ∷ [];
      from = inr (ap (λ n. block page n ∷ []) (sym (page_length size big)));
      whole = λ x. omega arith;
      free = free;
      start = page;
      s = size;
      item = refl;
      sized = inr (big, refl);
      is_heap = IsHeap-add h free live mem' (block page size) w apart only record {
        nonzero = nz;
        fits = fits;
        header = get64-put64 h.mem page size (omega (arith, fits, nz));
        sized = inr big;
      };
      same = λ x hit. only x (omega (arith, apart x, hit));
    }

pub xmalloc_helper-Handed :
    (mmap : Heap → ℕ → ℕ) (request : ℕ) (h : Heap) (free : ℕ → List ℕ) (live : List Block)
    → IsHeap h free live
    → (let len = mapped_length (at_least_cell request) in IsFresh free live (mmap h len) len)
    → Succeeds
        (xmalloc_helper mmap request h)
        (let size = at_least_cell request in Handed h free live (mmap h (mapped_length size)) size)
unfolding xmalloc_helper
xmalloc_helper-Handed mmap request h free live w fresh =
    let size = at_least_cell request in
    elim (Bool-cases (ltb heap_size size)) [
      | inl big ↦
          let len = page_length size (ltb→lt heap_size size big) in
          let fresh' = subst (λ n. IsFresh free live (mmap h n) n) len fresh in
          let handed =
            from_pages size (mmap h size) h free live (ltb→lt heap_size size big) w fresh' in
          let r : ℕ × Heap = (mmap h size + 8, record h { mem = put64 h.mem (mmap h size) size }) in
          (r, rw big refl, subst (λ n. Handed h free live (mmap h n) size r) (sym len) handed)
      | inr small ↦
          let len = chunk_length size (not_ltb→le heap_size size small) in
          let fresh' = subst (λ n. IsFresh free live (mmap h n) n) len fresh in
          let (i, run, fits) = get_fl_index-Fits size (not_ltb→le heap_size size small) in
          let (r, run', handed) = from_list mmap size i h free live fits w fresh' in
          (r, rw small (rw run run'), handed)
    ]

pub at_least_cell-le : (request : ℕ) → request ≤ at_least_cell request
unfolding at_least_cell
at_least_cell-le request = ground arith

-- On a well-formed heap, for a request of fewer than 2^64 - 8 bytes, and when `mmap` gives pages apart
-- from all blocks: `xmalloc` returns the bytes behind the header of a block. Its size is the first
-- power of two, from 32 on, that is at least the request and eight bytes, or, above a megabyte, these
-- bytes. The heap is well formed with this block in use, so that it is apart from all others; the bytes
-- that were free, and those of pages that were mapped, are free or in the block; and no byte of
-- another block in use changes.
pub xmalloc-Handed :
    (mmap : Heap → ℕ → ℕ) (size : ℕ) (h : Heap) (free : ℕ → List ℕ) (live : List Block)
    → IsHeap h free live
    → size + 8 < 2 ^ 64
    → (let len = mapped_length (at_least_cell (size + 8)) in IsFresh free live (mmap h len) len)
    → Succeeds
        (xmalloc mmap size h)
        (let n = at_least_cell (size + 8) in Handed h free live (mmap h (mapped_length n)) n)
unfolding xmalloc
xmalloc-Handed mmap size h free live w small fresh =
    let e : (size + 8) % 2 ^ 64 ≡ size + 8 = omega arith in
    rw e (xmalloc_helper-Handed mmap (size + 8) h free live w fresh)
