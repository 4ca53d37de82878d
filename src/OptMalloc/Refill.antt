-- ===== src/OptMalloc/Refill.antt =====
-- make_fl_cell and pull_from_above of chal2/starter-ch02/opt_malloc.c: a list that is empty gets chunks.
use cs.Base.{
  ℕ, ◌+◌, ◌^◌, ◌≤◌, ◌<◌, ◌≡◌, refl, ◌∙◌, ap, List, [], ◌∷◌, ◌⊎◌, inl, inr, arith, dec_lt, Succeeds,
}
use cs.OptMalloc.{Memory, Heap, get64, put64, chunk, make_fl_cell, pull_from_above}
use cs.OptMalloc.Words.{put64-outside, get64-put64, get64-put64_apart, get64-same}
use cs.OptMalloc.Blocks.{
  covers_free-cons, chunk_double, inside_halves, covers_free, Block, block, inside, inside_in,
  covers, chunk_bounds, Same, with_list, with_list_at,
}
use cs.OptMalloc.Chains.{IsHeap, Only, IsHeap-replace}
use cs.OptMalloc.Lists.{pop_lem, insert_fl_cell_lem}

pub make_fl_cell-outside :
    (mem : Memory) (a s x : ℕ) → (x < a) ⊎ (a + 24 ≤ x) → make_fl_cell mem a s x ≡ mem x
unfolding make_fl_cell
make_fl_cell-outside mem a s x h =
    let m1 = put64 mem a s in
    let m2 = put64 m1 (a + 16) 0 in
    let near : (k : ℕ) → k + 8 ≤ 24 → (x < a + k) ⊎ (a + k + 8 ≤ x) =
      λ k le. elim h [ inl l ↦ inl (omega (arith, l, le)) | inr r ↦ inr (omega (arith, r, le)) ] in
    put64-outside m2 (a + 8) 0 x (near 8 (omega arith))
    ∙ put64-outside m1 (a + 16) 0 x (near 16 (omega arith))
    ∙ put64-outside mem a s x (elim h [ inl l ↦ inl l | inr r ↦ inr (omega arith) ])

pub make_fl_cell-size : (mem : Memory) (a s : ℕ) → s < 2 ^ 64 → get64 (make_fl_cell mem a s) a ≡ s
unfolding make_fl_cell
make_fl_cell-size mem a s h =
    let m1 = put64 mem a s in
    let m2 = put64 m1 (a + 16) 0 in
    get64-put64_apart m2 (a + 8) 0 a (inl (omega arith))
    ∙ get64-put64_apart m1 (a + 16) 0 a (inl (omega arith))
    ∙ get64-put64 mem a s h

pub make_fl_cell-next : (mem : Memory) (a s : ℕ) → get64 (make_fl_cell mem a s) (a + 8) ≡ 0
unfolding make_fl_cell
make_fl_cell-next mem a s = get64-put64 (put64 (put64 mem a s) (a + 16) 0) (a + 8) 0 (omega arith)

-- A write in one block in use does not reach the others.
pub Only-Same :
    (h : Heap) (free : ℕ → List ℕ) (live : List Block) (b : Block) (mem mem' : Memory)
    → IsHeap h free (b ∷ live)
    → Only mem mem' b
    → Same mem mem' (covers live)
unfolding covers
Only-Same h free live b mem mem' w only x hit = only x (omega (arith, w.apart x, hit))

-- What lies outside a range is not covered, in the form that the writes need.
pub far : (a s x : ℕ) → inside a s x ≡ 0 → (x < a) ⊎ (a + s ≤ x)
far a s x out = elim (dec_lt x a) [
  | yes lo ↦ inl lo
  | no hi ↦ elim (dec_lt x (a + s)) [
    | yes within ↦ absurd (omega (arith, out, inside_in a s x (omega (arith, hi)) within))
    | no above ↦ inr (omega (arith, above))
  ]
]

more : (a s : ℕ) (live : List Block) (x : ℕ) → 0 < covers live x → 0 < covers (block a s ∷ live) x
unfolding covers
more a s live x hit = omega arith

-- The list `i` has a chunk, `g` counts the free chunks, and the blocks in use and their bytes are the same.
pub record Refilled (h : Heap) (live : List Block) (i : ℕ) (g : ℕ → ℕ) (h' : Heap) : Type 0 where
  pub free : ℕ → List ℕ
  pub is_heap : IsHeap h' free live
  pub first : ℕ
  pub rest : List ℕ
  pub found : free i ≡ first ∷ rest
  pub whole : (x : ℕ) → covers_free 16 free x ≡ g x
  pub same : Same h.mem h'.mem (covers live)

-- The two halves of a chunk, with their headers written.
halves :
    (h : Heap) (free : ℕ → List ℕ) (live : List Block) (i a : ℕ)
    → i + 1 < 16
    → IsHeap h free (block a (chunk (i + 1)) ∷ live)
    → (mem' : Memory) → mem' ≡ make_fl_cell (put64 h.mem a (chunk i)) (a + chunk i) (chunk i)
    → IsHeap
        (record h { mem = mem' })
        free
        (block (a + chunk i) (chunk i) ∷ block a (chunk i) ∷ live)
      × Only h.mem mem' (block a (chunk (i + 1)))
unfolding covers
halves h free live i a lt w mem' made =
    let s = chunk i in
    let double = chunk_double i in
    let (big, small) = chunk_bounds i (omega arith) in
    let m1 = put64 h.mem a s in
    let b = block a (chunk (i + 1)) in
    let only : Only h.mem mem' b = λ x out.
      let apart = far a (chunk (i + 1)) x out in
      ap (λ (m : Memory). m x) made
      ∙ make_fl_cell-outside m1 (a + s) s x (elim apart [
        | inl l ↦ inl (omega (arith, l))
        | inr r ↦ inr (omega (arith, r, double, big))
      ])
      ∙ put64-outside h.mem a s x
          (elim apart [ inl l ↦ inl l | inr r ↦ inr (omega (arith, r, double, big)) ]) in
    let here = w.held.0 in
    let size1 : get64 mem' (a + s) ≡ s =
      ap (λ (m : Memory). get64 m (a + s)) made
      ∙ make_fl_cell-size m1 (a + s) s (omega (arith, small)) in
    let size0 : get64 mem' a ≡ s =
      ap (λ (m : Memory). get64 m a) made
      ∙ get64-same m1 (make_fl_cell m1 (a + s) s) a
          (λ x lo hi. make_fl_cell-outside m1 (a + s) s x (inl (omega (arith, lo, hi, big))))
      ∙ get64-put64 h.mem a s (omega (arith, small)) in
    let cut : (x : ℕ) → inside a (chunk (i + 1)) x ≡ inside a s x + inside (a + s) s x =
      λ x. ap (λ k. inside a k x) double ∙ inside_halves a s x in
    let fits = here.fits in
    let nz = here.nonzero in
    (
      IsHeap-replace h free live (block (a + s) s ∷ block a s ∷ []) mem' b w only
          (λ x. omega (arith, cut x))
          (
            record {
              nonzero = omega (arith, nz);
              fits = omega (arith, fits, double);
              header = size1;
              sized = inl (i, omega (arith, lt), refl);
            },
            (
              record {
                nonzero = nz;
                fits = omega (arith, fits, double);
                header = size0;
                sized = inl (i, omega (arith, lt), refl);
              },
              tt,
            ),
          ),
      only,
    )

pub pull_from_above-Refilled :
    (h : Heap) (free : ℕ → List ℕ) (live : List Block) (i a : ℕ) (ps : List ℕ)
    → i + 1 < 16
    → free (i + 1) ≡ a ∷ ps
    → IsHeap h free live
    → Succeeds (pull_from_above h i) (Refilled h live i (covers_free 16 free))
unfolding pull_from_above
pull_from_above-Refilled h free live i a ps lt first w =
    let s = chunk i in
    let ((p, h1), run1, (_, kept, nz, left, w1)) = pop_lem h free live (i + 1) a ps lt first w in
    let f1 = with_list free (i + 1) ps in
    let mem2 = make_fl_cell (put64 h1.mem p s) (p + s) s in
    let (w2, only2) = halves h1 f1 live i p lt w1 mem2 refl in
    let (h3, run3, (w3, only3)) =
      insert_fl_cell_lem (record h1 { mem = mem2 }) f1 (block p s ∷ live) i (p + s)
        (omega (arith, lt)) w2 in
    let f3 = with_list f1 i ((p + s) ∷ f1 i) in
    let (h4, run4, (w4, only4)) = insert_fl_cell_lem h3 f3 live i p (omega (arith, lt)) w3 in
    let same2 = Only-Same h1 f1 live (block p (chunk (i + 1))) h1.mem mem2 w1 only2 in
    let same3 : Same mem2 h3.mem (covers live) = λ x hit.
      Only-Same (record h1 { mem = mem2 }) f1 (block p s ∷ live) (block (p + s) s) mem2 h3.mem w2
        only3 x (more p s live x hit) in
    let same4 = Only-Same h3 f3 live (block p s) h3.mem h4.mem w3 only4 in
    (
      h4,
      rw run1 (rw run3 run4),
      record {
        free = with_list f3 i (p ∷ f3 i);
        is_heap = w4;
        first = p;
        rest = f3 i;
        found = with_list_at f3 i (p ∷ f3 i);
        whole = λ x.
            let cut = ap (λ k. inside p k x) (chunk_double i) ∙ inside_halves p s x in
            let i_lt : i < 16 = omega (arith, lt) in
            omega (
              arith,
              left x,
              cut,
              covers_free-cons f1 i (p + s) x i_lt,
              covers_free-cons f3 i p x i_lt,
            );
        same = λ x hit. same4 x hit ∙ same3 x hit ∙ same2 x hit ∙ ap (λ (m : Memory). m x) kept;
      },
    )
