-- ===== src/OptMalloc/Redistribute.antt =====
-- redistribute of chal2/starter-ch02/opt_malloc.c: an empty list gets chunks from the lists above it, or new pages.
use cs.Base.{
  ℕ, zero, suc, ◌+◌, ◌^◌, ◌≤◌, ◌<◌, ◌≡◌, refl, sym, ◌∙◌, ap, subst, List, [], ◌∷◌, true, false, ◌⊎◌,
  inl, inr, arith, ◌==◌, if◌then◌else◌, ==_iff, ℕ_discrete, Succeeds,
}
use cs.OptMalloc.{
  Heap, get64, chunk, heap_size, set_head, make_fl_cell, redistribute_fuel, redistribute,
}
use cs.OptMalloc.Blocks.{
  Block, block, inside, covers, chunks, covers_free, with_list, with_list_at, covers_free-with_list,
}
use cs.OptMalloc.Chains.{Chain, IsHeap, Only, IsHeap-frame}
use cs.OptMalloc.Lists.{set_head_lem, get_head_lem, chains-set}
use cs.OptMalloc.Refill.{
  Refilled, pull_from_above-Refilled, make_fl_cell-outside, make_fl_cell-size, make_fl_cell-next,
  far,
}

-- Pages that `mmap` may give: not at NULL, and apart from all blocks.
abbrev pub IsFresh : (ℕ → List ℕ) → List Block → ℕ → ℕ → Type 0
IsFresh free live page len =
    (0 < page)
    × (page + len ≤ 2 ^ 64)
    × ((x : ℕ) → covers_free 16 free x + covers live x + inside page len x ≤ 1)

-- No pages, or those that `mmap` gave.
abbrev pub IsGrown : ℕ → ℕ → List Block → Type 0
IsGrown page len pages = (pages ≡ []) ⊎ (pages ≡ block page len ∷ [])

-- The free chunks before, and the pages.
abbrev pub grown : (ℕ → List ℕ) → List Block → ℕ → ℕ
grown free pages x = covers_free 16 free x + covers pages x

map_heap-Refilled :
    (h : Heap) (free : ℕ → List ℕ) (live : List Block) (page : ℕ)
    → free 15 ≡ []
    → IsHeap h free live
    → IsFresh free live page heap_size
    → Succeeds
        (set_head (record h { mem = make_fl_cell h.mem page heap_size }) 15 page)
        (Refilled h live 15 (grown free (block page heap_size ∷ [])))
unfolding chunk Chain covers
map_heap-Refilled h free live page none_free w (nz, fits, apart) =
    let mem' = make_fl_cell h.mem page heap_size in
    let b = block page heap_size in
    let only : Only h.mem mem' b = λ x out.
      make_fl_cell-outside h.mem page heap_size x
        (elim (far page heap_size x out) [ inl l ↦ inl l | inr r ↦ inr (omega (arith, r)) ]) in
    let w' = IsHeap-frame h free live mem' b w apart only in
    let h' : Heap = record h { mem = mem' } in
    let f' = with_list free 15 (page ∷ []) in
    let size : get64 mem' page ≡ chunk 15 = make_fl_cell-size h.mem page heap_size (omega arith) in
    (
      record h' { heads = λ j. if j == 15 then page else h.heads j },
      set_head_lem h' 15 page (omega arith),
      record {
        free = f';
        is_heap = record {
          chains =
              chains-set h' free 15 page (page ∷ []) w'.chains
                (refl, nz, fits, size, make_fl_cell-next h.mem page heap_size);
          apart = λ x.
              let was = ap (λ l. covers (chunks (chunk 15) l) x) none_free in
              omega
                (arith, apart x, was, covers_free-with_list 16 free 15 (page ∷ []) x (omega arith));
          held = w'.held;
        };
        first = page;
        rest = [];
        found = with_list_at free 15 (page ∷ []);
        whole = λ x.
            let was = ap (λ l. covers (chunks (chunk 15) l) x) none_free in
            omega (arith, was, covers_free-with_list 16 free 15 (page ∷ []) x (omega arith));
        same = λ x hit. only x (omega (arith, apart x, hit));
      },
    )

Refilled-trans :
    (h h1 h2 : Heap) (live : List Block) (i j : ℕ) (g : ℕ → ℕ) (r1 : Refilled h live j g h1)
    → Refilled h1 live i (covers_free 16 r1.free) h2
    → Refilled h live i g h2
Refilled-trans h h1 h2 live i j g r1 r2 = record {
  free = r2.free;
  is_heap = r2.is_heap;
  first = r2.first;
  rest = r2.rest;
  found = r2.found;
  whole = λ x. r2.whole x ∙ r1.whole x;
  same = λ x hit. r2.same x hit ∙ r1.same x hit;
}

head_zero :
    (h : Heap) (free : ℕ → List ℕ) (live : List Block) (i : ℕ)
    → i < 16
    → free i ≡ []
    → IsHeap h free live
    → h.heads i ≡ 0
unfolding Chain
head_zero h free live i lt none_free w =
    subst (Chain (chunk i) h.mem (h.heads i)) none_free (w.chains i lt)

head_pos :
    (h : Heap) (free : ℕ → List ℕ) (live : List Block) (i a : ℕ) (ps : List ℕ)
    → i < 16
    → free i ≡ a ∷ ps
    → IsHeap h free live
    → 0 < h.heads i
unfolding Chain
head_pos h free live i a ps lt first w =
    let c : Chain (chunk i) h.mem (h.heads i) (a ∷ ps) =
      subst (Chain (chunk i) h.mem (h.heads i)) first (w.chains i lt) in
    omega (arith, c.0, c.1)

List-cases : (xs : List ℕ) → (xs ≡ []) ⊎ ((a : ℕ) × (ps : List ℕ) × (xs ≡ a ∷ ps))
List-cases [] = inl refl
List-cases (a ∷ ps) = inr (a, ps, refl)

redistribute_fuel-Refilled :
    (mmap : Heap → ℕ → ℕ) (f i : ℕ) (h : Heap) (free : ℕ → List ℕ) (live : List Block)
    → i < 16
    → 16 ≤ i + f
    → IsHeap h free live
    → IsFresh free live (mmap h heap_size) heap_size
    → Succeeds (redistribute_fuel mmap f h i) λ h'.
      (pages : List Block) × IsGrown (mmap h heap_size) heap_size pages
      × Refilled h live i (grown free pages) h'
unfolding redistribute_fuel covers
redistribute_fuel-Refilled mmap zero i h free live lt enough w fresh = absurd (omega arith)
redistribute_fuel-Refilled mmap (suc f) i h free live lt enough w fresh =
    elim (List-cases (free i)) [
      | inr (a, ps, first) ↦
          let full : (h.heads i == 0) ≡ false =
            ground (arith, head_pos h free live i a ps lt first w) in
          (
            h,
            rw (get_head_lem h i lt) (rw full refl),
            (
              [],
              inl refl,
              record {
                free = free;
                is_heap = w;
                first = a;
                rest = ps;
                found = first;
                whole = λ x. omega arith;
                same = λ x hit. refl;
              },
            ),
          )
      | inl none_free ↦
          let zero_head : (h.heads i == 0) ≡ true =
            (==_iff (h.heads i) 0).1 (head_zero h free live i lt none_free w) in
          elim (ℕ_discrete i 15) [
            | yes last ↦
                let top : (i == 15) ≡ true = (==_iff i 15).1 last in
                let page = mmap h heap_size in
                let pages : List Block = block page heap_size ∷ [] in
                let (h', run, r) =
                  map_heap-Refilled h free live page (ap free (sym last) ∙ none_free) w fresh in
                (
                  h',
                  rw (get_head_lem h i lt) (rw zero_head (rw top run)),
                  (
                    pages,
                    inr refl,
                    subst (λ k. Refilled h live k (grown free pages) h') (sym last) r,
                  ),
                )
            | no other ↦
                let not_top : (i == 15) ≡ false = ground (arith, other) in
                let (h1, run1, (pages, from, r1)) =
                  redistribute_fuel-Refilled mmap f (i + 1) h free live (omega (arith, lt, other))
                    (omega (arith, enough)) w fresh in
                let (h2, run2, r2) =
                  pull_from_above-Refilled h1 r1.free live i r1.first r1.rest
                    (omega (arith, lt, other)) r1.found r1.is_heap in
                (
                  h2,
                  rw (get_head_lem h i lt) (rw zero_head (rw not_top (rw run1 run2))),
                  (pages, from, Refilled-trans h h1 h2 live i (i + 1) (grown free pages) r1 r2),
                )
          ]
    ]

-- For an index of a list `redistribute` returns with a chunk in that list. The free bytes are those
-- before, and those of the pages that it mapped, if it did.
pub redistribute-Refilled :
    (mmap : Heap → ℕ → ℕ) (i : ℕ) (h : Heap) (free : ℕ → List ℕ) (live : List Block)
    → i < 16
    → IsHeap h free live
    → IsFresh free live (mmap h heap_size) heap_size
    → Succeeds (redistribute mmap h i) λ h'.
      (pages : List Block) × IsGrown (mmap h heap_size) heap_size pages
      × Refilled h live i (grown free pages) h'
unfolding redistribute
redistribute-Refilled mmap i h free live lt w fresh =
    redistribute_fuel-Refilled mmap 16 i h free live lt (omega arith) w fresh
