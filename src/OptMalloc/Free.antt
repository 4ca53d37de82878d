-- ===== src/OptMalloc/Free.antt =====
-- xfree of chal2/starter-ch02/opt_malloc.c.
use cs.Base.{
  ℕ, ◌+◌, ◌-◌, ◌≤◌, ◌<◌, ◌≡◌, refl, ◌∙◌, ap, subst, List, [], ◌∷◌, ◌++◌, true, false, inl, inr,
  arith, ltb, if◌then◌else◌, lt→ltb, le→not_ltb, dec_lt, All, ret, Succeeds,
}
use cs.OptMalloc.{Memory, Heap, get64, chunk, heap_size, get_fl_index, cell_of, xfree_helper, xfree}
use cs.OptMalloc.Blocks.{
  covers_free-cons, Block, block, inside, inside_out, covers, covers-append, covers_free,
  chunk_bounds, Same, with_list,
}
use cs.OptMalloc.Chains.{Held, IsHeap}
use cs.OptMalloc.Index.{get_fl_index-chunk}
use cs.OptMalloc.Lists.{insert_fl_cell_lem}
use cs.OptMalloc.Refill.{Only-Same}

pub covers_middle :
    (xs ys : List Block) (b : Block) (x : ℕ)
    → covers (xs ++ (b ∷ ys)) x ≡ inside b.start b.size x + covers (xs ++ ys) x
unfolding covers
covers_middle xs ys b x = omega (arith, covers-append xs (b ∷ ys) x, covers-append xs ys x)

All_middle :
    (mem : Memory) (xs ys : List Block) (b : Block)
    → All (Held mem) (xs ++ (b ∷ ys))
    → Held mem b × All (Held mem) (xs ++ ys)
All_middle mem [] ys b all = all
All_middle mem (x ∷ xs) ys b (h, all) =
    let (here, rest) = All_middle mem xs ys b all in (here, (h, rest))

-- The order of the blocks in use does not matter.
pub IsHeap_front :
    (h : Heap) (free : ℕ → List ℕ) (xs ys : List Block) (b : Block)
    → IsHeap h free (xs ++ (b ∷ ys))
    → IsHeap h free (b ∷ xs ++ ys)
unfolding covers
IsHeap_front h free xs ys b w = record {
  chains = w.chains;
  apart = λ x. omega (arith, w.apart x, covers_middle xs ys b x);
  held = All_middle h.mem xs ys b w.held;
}

pub IsHeap_tail :
    (h : Heap) (free : ℕ → List ℕ) (live : List Block) (b : Block)
    → IsHeap h free (b ∷ live)
    → IsHeap h free live
unfolding covers
IsHeap_tail h free live b w = record {
  chains = w.chains;
  apart = λ x. omega (arith, w.apart x);
  held = w.held.1;
}

-- What comes back to the lists: a block's own pages do not.
unfoldable pub returned : ℕ → ℕ
returned size = if ltb heap_size size then 0 else size

inside_none : (a x : ℕ) → inside a 0 x ≡ 0
inside_none a x =
    inside_out a 0 x (elim (dec_lt x a) [ yes l ↦ inl l | no r ↦ inr (omega (arith, r)) ])

returned_pages : (size : ℕ) → heap_size < size → returned size ≡ 0
unfolding returned
returned_pages size big = rw (lt→ltb heap_size size big) refl

pub returned_chunk : (size : ℕ) → size ≤ heap_size → returned size ≡ size
unfolding returned
returned_chunk size small = rw (le→not_ltb heap_size size small) refl

-- The block `b` is no longer in use, its bytes are free, if it is a chunk, and the bytes of the others
-- are the same.
pub record Freed (h : Heap) (free0 : ℕ → List ℕ) (live : List Block) (b : Block) (h' : Heap)
    : Type 0 where
  pub free : ℕ → List ℕ
  pub whole :
      (x : ℕ) → covers_free 16 free x ≡ covers_free 16 free0 x + inside b.start (returned b.size) x
  pub is_heap : IsHeap h' free live
  pub same : Same h.mem h'.mem (covers live)

pub cell_of_item : (a : ℕ) → cell_of (a + 8) ≡ ret a
unfolding cell_of
cell_of_item a =
    rw (le→not_ltb (a + 8) 8 (omega arith)) (ap ret (let e : a + 8 - 8 ≡ a = omega arith in e))

xfree_helper-Freed_front :
    (h : Heap) (free : ℕ → List ℕ) (live : List Block) (b : Block)
    → IsHeap h free (b ∷ live)
    → Succeeds (xfree_helper (b.start + 8) h) (Freed h free live b)
unfolding xfree_helper
xfree_helper-Freed_front h free live b w =
    let here = w.held.0 in
    let a = b.start in
    elim here.sized [
      | inr big ↦
          let test : ltb heap_size (get64 h.mem a) ≡ true =
            lt→ltb heap_size (get64 h.mem a) (omega (arith, big, here.header)) in
          (
            h,
            rw (cell_of_item a) (rw test refl),
            record {
              free = free;
              whole = λ x.
                  let gone = ap (λ n. inside a n x) (returned_pages b.size big) in
                  omega (arith, gone, inside_none a x);
              is_heap = IsHeap_tail h free live b w;
              same = λ x hit. refl;
            },
          )
      | inl (i, lt, e) ↦
          let header : get64 h.mem a ≡ chunk i = here.header ∙ e in
          let test : ltb heap_size (get64 h.mem a) ≡ false =
            le→not_ltb heap_size (get64 h.mem a) (omega (arith, header, (chunk_bounds i lt).1)) in
          let w' : IsHeap h free (block a (chunk i) ∷ live) =
            subst (λ s. IsHeap h free (block a s ∷ live)) e w in
          let (h', run, (w2, only)) = insert_fl_cell_lem h free live i a lt w' in
          let index = ap get_fl_index header ∙ get_fl_index-chunk i lt in
          (
            h',
            rw (cell_of_item a) (rw test (rw index run)),
            record {
              free = with_list free i (a ∷ free i);
              whole = λ x.
                  let back =
                    ap (λ n. inside a n x)
                      (returned_chunk b.size (omega (arith, e, (chunk_bounds i lt).1)) ∙ e) in
                  omega (arith, back, covers_free-cons free i a x lt);
              is_heap = w2;
              same = Only-Same h free live (block a (chunk i)) h.mem h'.mem w' only;
            },
          )
    ]

pub xfree_helper-Freed :
    (h : Heap) (free : ℕ → List ℕ) (xs ys : List Block) (b : Block)
    → IsHeap h free (xs ++ (b ∷ ys))
    → Succeeds (xfree_helper (b.start + 8) h) (Freed h free (xs ++ ys) b)
xfree_helper-Freed h free xs ys b w =
    xfree_helper-Freed_front h free (xs ++ ys) b (IsHeap_front h free xs ys b w)

-- On a well-formed heap `xfree` of any block in use returns, and the heap is well formed with the other
-- blocks in use. The bytes of the block become free if it is not larger than a megabyte, and no
-- others do; no byte of the other blocks changes.
pub xfree-Freed :
    (h : Heap) (free : ℕ → List ℕ) (xs ys : List Block) (b : Block)
    → IsHeap h free (xs ++ (b ∷ ys))
    → Succeeds (xfree (b.start + 8) h) (Freed h free (xs ++ ys) b)
unfolding xfree
xfree-Freed = xfree_helper-Freed
