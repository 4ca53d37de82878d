-- ===== src/OptMalloc/Realloc.antt =====
-- xrealloc of chal2/starter-ch02/opt_malloc.c.
use cs.Base.{
  ℕ, ◌+◌, ◌-◌, ◌%◌, ◌^◌, ◌≤◌, ◌<◌, ◌≡◌, refl, ◌∙◌, ap, List, [], ◌∷◌, ◌++◌, false, inl, inr, arith,
  leb, ◌==◌, leb→le, not_leb→lt, Bool-cases, ret, Succeeds, ◌>>=◌,
}
use cs.OptMalloc.{Heap, memcpy, at_least_cell, xfree_helper, move_item, resize, xrealloc}
use cs.OptMalloc.Words.{get64-same, memcpy-inside, memcpy-outside}
use cs.OptMalloc.Blocks.{Block, block, inside_in, covers, Same}
use cs.OptMalloc.Chains.{Sized-le, IsHeap, Only, IsHeap-replace}
use cs.OptMalloc.Refill.{Only-Same, far}
use cs.OptMalloc.Redistribute.{IsFresh}
use cs.OptMalloc.Alloc.{mapped_length, IsSize-le, xmalloc_helper-Handed, at_least_cell-le}
use cs.OptMalloc.Free.{IsHeap_front, covers_middle, cell_of_item, xfree_helper-Freed}

-- A block in use with room for `size` bytes behind its header, which has the bytes that stood behind the header of
-- `b`, as many as `b` has. The bytes of the others are the same.
pub record Moved (h : Heap) (live : List Block) (b : Block) (size : ℕ) (r : ℕ × Heap) : Type 0 where
  pub free : ℕ → List ℕ
  pub start : ℕ
  pub s : ℕ
  pub item : r.0 ≡ start + 8
  pub enough : size + 8 ≤ s
  pub is_heap : IsHeap r.1 free (block start s ∷ live)
  pub content : (j : ℕ) → j < b.size - 8 → r.1.mem (r.0 + j) ≡ h.mem (b.start + 8 + j)
  pub same : Same h.mem r.1.mem (covers live)

covered_front :
    (b : Block) (live : List Block) (x : ℕ)
    → b.start ≤ x
    → x < b.start + b.size
    → 0 < covers (b ∷ live) x
unfolding covers
covered_front b live x lo hi = omega (arith, inside_in b.start b.size x lo hi)

covered_later :
    (b : Block) (live : List Block) (x : ℕ) → 0 < covers live x → 0 < covers (b ∷ live) x
unfolding covers
covered_later b live x hit = omega arith

-- The copy into the new block.
copied :
    (h : Heap) (free : ℕ → List ℕ) (live : List Block) (p s src n : ℕ)
    → n + 8 ≤ s
    → IsHeap h free (block p s ∷ live)
    → (let mem' = memcpy h.mem (p + 8) src n in
        IsHeap (record h { mem = mem' }) free (block p s ∷ live) × Only h.mem mem' (block p s))
unfolding covers
copied h free live p s src n fit w =
    let mem' = memcpy h.mem (p + 8) src n in
    let here = w.held.0 in
    let only : Only h.mem mem' (block p s) = λ x out.
      memcpy-outside h.mem (p + 8) src n x (elim (far p s x out) [
        | inl l ↦ inl (omega (arith, l))
        | inr r ↦ inr (omega (arith, r, fit))
      ]) in
    let header =
      get64-same h.mem mem' p (λ x lo hi. memcpy-outside h.mem (p + 8) src n x (inl hi)) in
    (
      IsHeap-replace h free live (block p s ∷ []) mem' (block p s) w only (λ x. omega arith)
          (
            record {
              nonzero = here.nonzero;
              fits = here.fits;
              header = header ∙ here.header;
              sized = here.sized;
            },
            tt,
          ),
      only,
    )

move_item-Moved :
    (mmap : Heap → ℕ → ℕ) (size : ℕ) (h : Heap) (free : ℕ → List ℕ) (live : List Block) (b : Block)
    → IsHeap h free (b ∷ live)
    → b.size < size + 8
    → (let len = mapped_length (at_least_cell (size + 8)) in
        IsFresh free (b ∷ live) (mmap h len) len)
    → Succeeds (move_item mmap (b.start + 8) b.size (size + 8) h) (Moved h live b size)
unfolding move_item
move_item-Moved mmap size h free live b w grows fresh =
    let item = b.start + 8 in
    let n = b.size - 8 in
    let old = Sized-le w.held.0.sized in
    let ((q, h1), run1, a) = xmalloc_helper-Handed mmap (size + 8) h free (b ∷ live) w fresh in
    let p = a.start in
    let at : q ≡ p + 8 = a.item in
    let room = IsSize-le a.sized in
    let served = at_least_cell-le (size + 8) in
    let (w2, only2) =
      copied h1 a.free (b ∷ live) p a.s item n (omega (arith, room, served, grows)) a.is_heap in
    let mem2 = memcpy h1.mem (p + 8) item n in
    let h2 : Heap = record h1 { mem = mem2 } in
    let (h3, run3, f) = xfree_helper-Freed h2 a.free (block p a.s ∷ []) live b w2 in
    let same2 = Only-Same h1 a.free (b ∷ live) (block p a.s) h1.mem mem2 a.is_heap only2 in
    (
      (q, h3),
      rw run1 (
          ap
            (λ d.
              xfree_helper item (record h1 { mem = memcpy h1.mem d item n }) >>= λ h'. ret (q, h'))
            at
          ∙ rw run3 refl),
      record {
        free = f.free;
        start = p;
        s = a.s;
        item = at;
        enough = omega (arith, room, served);
        is_heap = f.is_heap;
        content = λ j lt.
            ap (λ k. h3.mem (k + j)) at
            ∙ f.same (p + 8 + j) (
                covered_front (block p a.s) live (p + 8 + j) (omega arith)
                  (omega (arith, lt, room, served, grows)))
            ∙ memcpy-inside h1.mem (p + 8) item n j lt
            ∙ a.same (item + j) (covered_front b live (item + j) (omega arith) (omega (arith, lt)));
        same = λ x hit.
            f.same x (covered_later (block p a.s) live x hit)
            ∙ same2 x (covered_later b live x hit)
            ∙ a.same x (covered_later b live x hit);
      },
    )

resize-Moved :
    (mmap : Heap → ℕ → ℕ) (size : ℕ) (h : Heap) (free : ℕ → List ℕ) (live : List Block) (b : Block)
    → IsHeap h free (b ∷ live)
    → (let len = mapped_length (at_least_cell (size + 8)) in
        IsFresh free (b ∷ live) (mmap h len) len)
    → Succeeds (resize mmap (b.start + 8) (size + 8) h) (Moved h live b size)
unfolding resize
resize-Moved mmap size h free live b w fresh =
    let header = w.held.0.header in
    elim (Bool-cases (leb (size + 8) b.size)) [
      | inl fits ↦ (
        (b.start + 8, h),
        rw (cell_of_item b.start) (rw header (rw fits refl)),
        record {
          free = free;
          start = b.start;
          s = b.size;
          item = refl;
          enough = leb→le (size + 8) b.size fits;
          is_heap = w;
          content = λ j lt. refl;
          same = λ x hit. refl;
        },
      )
      | inr grows ↦
          let (r, run, moved) =
            move_item-Moved mmap size h free live b w (not_leb→lt (size + 8) b.size grows) fresh in
          (r, rw (cell_of_item b.start) (rw header (rw grows run)), moved)
    ]

-- On a well-formed heap, for a block in use and a size of 1 to 2^64 - 9 bytes, and when `mmap` gives
-- pages apart from all blocks: `xrealloc` returns the bytes behind the header of a block in use with
-- room for the size, whose first bytes are those of the old block, as many as it had behind its header.
-- The heap is well formed with this block in the place of the old one, and no byte of another block in
-- use changes.
pub xrealloc-Moved :
    (mmap : Heap → ℕ → ℕ) (size : ℕ) (h : Heap) (free : ℕ → List ℕ) (xs ys : List Block) (b : Block)
    → IsHeap h free (xs ++ (b ∷ ys))
    → 0 < size
    → size + 8 < 2 ^ 64
    → (let len = mapped_length (at_least_cell (size + 8)) in
        IsFresh free (xs ++ (b ∷ ys)) (mmap h len) len)
    → Succeeds (xrealloc mmap (b.start + 8) size h) (Moved h (xs ++ ys) b size)
unfolding xrealloc covers
xrealloc-Moved mmap size h free xs ys b w some_bytes small (nz, fits, apart) =
    let e : (size + 8) % 2 ^ 64 ≡ size + 8 = omega arith in
    let not_null : (b.start + 8 == 0) ≡ false = ground arith in
    let not_zero : (size == 0) ≡ false = ground arith in
    let len = mapped_length (at_least_cell (size + 8)) in
    let fresh : IsFresh free (b ∷ xs ++ ys) (mmap h len) len =
      (nz, fits, λ (x : ℕ). omega (arith, apart x, covers_middle xs ys b x)) in
    let (r, run, moved) =
      resize-Moved mmap size h free (xs ++ ys) b (IsHeap_front h free xs ys b w) fresh in
    (r, rw not_null (rw not_zero (rw e run)), moved)
