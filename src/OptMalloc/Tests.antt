-- ===== src/OptMalloc/Tests.antt =====
-- Tests for chal2/starter-ch02/opt_malloc.c: one block of 32 bytes in use, at 4096, and no free chunks.
use cs.Base.{
  ℕ, zero, suc, ◌+◌, ◌-◌, ◌^◌, ◌≤◌, ◌≡◌, refl, List, [], ◌∷◌, inl, arith, ret, Succeeds, ◌>>=◌,
}
use cs.OptMalloc.{
  Heap, get64, put64, chunk, heap_size, get_head, set_head, pop, insert_fl_cell, make_fl_cell,
  pull_from_above, redistribute_fuel, redistribute, index_from, get_fl_index, at_least_cell,
  xmalloc_helper, xmalloc, xfree, xrealloc, load, store_bytes, put8,
}
use cs.OptMalloc.Words.{get64-put64}
use cs.OptMalloc.Blocks.{Block, block, inside, covers, covers_free, Same}
use cs.OptMalloc.Chains.{Chain, IsHeap}
use cs.OptMalloc.Redistribute.{IsFresh, IsGrown, redistribute-Refilled, grown}
use cs.OptMalloc.Refill.{Refilled}
use cs.OptMalloc.Alloc.{mapped_length, Handed, xmalloc-Handed}
use cs.OptMalloc.Free.{Freed, xfree-Freed}
use cs.OptMalloc.Realloc.{Moved, xrealloc-Moved}
use cs.OptMalloc.RoundTrip.{xmalloc-xfree, xmalloc-wraps}

abbrev start : Heap
start = record { mem = put64 (λ x. 0) 4096 32; heads = λ i. 0 }

abbrev none_free : ℕ → List ℕ
none_free i = []

abbrev used : Block
used = block 4096 32

-- Pages at 2^32.
abbrev mmap : Heap → ℕ → ℕ
mmap h len = 2 ^ 32

covers-none_free : (n x : ℕ) → covers_free n none_free x ≡ 0
unfolding covers_free covers
covers-none_free zero x = refl
covers-none_free (suc n) x = omega (arith, covers-none_free n x)

start-IsHeap : IsHeap start none_free (used ∷ [])
unfolding Chain covers chunk inside
start-IsHeap = record {
  chains = λ i lt. refl;
  apart = λ x. ground (arith, covers-none_free 16 x);
  held = (
    record {
      nonzero = omega arith;
      fits = omega arith;
      header = get64-put64 (λ x. 0) 4096 32 (omega arith);
      sized = inl (0, omega arith, refl);
    },
    tt,
  );
}

pages-IsFresh : (len : ℕ) → len ≤ 2 ^ 32 → IsFresh none_free (used ∷ []) (2 ^ 32) len
unfolding covers inside
pages-IsFresh len small =
    (omega arith, omega (arith, small), λ x. ground (arith, covers-none_free 16 x))

length_100 : mapped_length (at_least_cell 108) ≡ heap_size
unfolding mapped_length at_least_cell
length_100 = refl

xmalloc-Handed_example :
    Succeeds
      (xmalloc mmap 100 start)
      (let n = at_least_cell 108 in Handed start none_free (used ∷ []) (2 ^ 32) n)
xmalloc-Handed_example =
    xmalloc-Handed mmap 100 start none_free (used ∷ []) start-IsHeap (omega arith)
      (pages-IsFresh (mapped_length (at_least_cell 108)) (omega (arith, length_100)))

xfree-Freed_example : Succeeds (xfree 4104 start) (Freed start none_free [] used)
xfree-Freed_example = xfree-Freed start none_free [] [] used start-IsHeap

xrealloc-Moved_example : Succeeds (xrealloc mmap 4104 100 start) (Moved start [] used 100)
xrealloc-Moved_example =
    xrealloc-Moved mmap 100 start none_free [] [] used start-IsHeap (omega arith) (omega arith)
      (pages-IsFresh (mapped_length (at_least_cell 108)) (omega (arith, length_100)))

xmalloc-xfree_example : Succeeds (xmalloc mmap 100 start >>= λ r. xfree r.0 r.1) λ h'.
    (free' : ℕ → List ℕ) × (pages : List Block) × IsGrown
      (2 ^ 32)
      (mapped_length (at_least_cell 108))
      pages
    × IsHeap h' free' (used ∷ [])
    × ((x : ℕ) → covers_free 16 free' x ≡ covers_free 16 none_free x + covers pages x)
    × Same start.mem h'.mem (covers (used ∷ []))
xmalloc-xfree_example =
    xmalloc-xfree mmap 100 start none_free (used ∷ []) start-IsHeap (omega arith)
      (pages-IsFresh (mapped_length (at_least_cell 108)) (omega (arith, length_100)))

xmalloc-wraps_example :
    Succeeds (xmalloc mmap (2 ^ 64 - 8) start) λ r.
      (free' : ℕ → List ℕ) × (a : ℕ) × (r.0 ≡ a + 8) × IsHeap r.1 free' (block a 32 ∷ used ∷ [])
xmalloc-wraps_example =
    xmalloc-wraps mmap (2 ^ 64 - 8) start none_free (used ∷ []) start-IsHeap (omega arith)
      (omega arith) (pages-IsFresh heap_size (omega arith))

redistribute-Refilled_example : Succeeds (redistribute mmap start 2) λ h'.
    (pages : List Block) × IsGrown (2 ^ 32) heap_size pages
    × Refilled start (used ∷ []) 2 (grown none_free pages) h'
redistribute-Refilled_example =
    redistribute-Refilled mmap 2 start none_free (used ∷ []) (omega arith) start-IsHeap
      (pages-IsFresh heap_size (omega arith))

-- The new pages are cut down to 128 bytes.
after_100 : (xmalloc mmap 100 start >>= λ r. ret r.0) ≡ ret (2 ^ 32 + 8)
unfolding xmalloc xmalloc_helper at_least_cell get_fl_index index_from chunk redistribute
    redistribute_fuel get_head set_head pull_from_above pop insert_fl_cell make_fl_cell get64 put64
    load store_bytes put8
after_100 = refl
