-- ===== src/Hmalloc/Alloc.antt =====
-- `hmalloc` for requests of less than a page, and the length of the free list.
use cs.Base.{
  ℕ, zero, suc, ◌+◌, ◌-◌, ◌^◌, ◌≤◌, ◌<◌, ◌≡◌, refl, sym, ◌∙◌, ap, ap₂, subst, List, [], ◌∷◌, ◌++◌,
  false, ◌||◌, ◌⊎◌, inl, inr, arith, ◌==◌, lt→not_leb, length,
}
use cs.Base.{ret, Succeeds}
use cs.Hmalloc.{
  Cell, Memory, Heap, Stats, State, page_size, rounds, chunk_size, search_size, add_page,
  hmalloc_fuel, hmalloc, fl_length, free_list_length, hgetstats,
}
use cs.Hmalloc.Chunks.{Chunk, first_or, Spaced, more, Spaced-weaken, length-end_or, covers, inside}
use cs.Hmalloc.Linked.{Linked, link}
use cs.Hmalloc.Free.{IsHeap, IsApart, give}
use cs.Hmalloc.Search.{AllSmall, Hit, search_size-Hit, not-AllSmall}
use cs.Hmalloc.Take.{Taken, take_chunk-Taken}

fl_length-length :
    (mem : Memory) (cs : List Chunk) (f : ℕ) {lo prev : ℕ}
    → 1 ≤ lo
    → Spaced 0 lo cs
    → Linked mem prev cs 0
    → length cs < f
    → fl_length f mem (first_or 0 cs) ≡ ret (length cs)
unfolding fl_length
fl_length-length mem cs zero low sp lk lt = absurd (omega arith)
fl_length-length mem [] (suc f) low sp lk lt = refl
fl_length-length mem ((a, t) ∷ cs) (suc f) low (more b c d) (link e lk) lt =
    let nz : (a == 0) ≡ false = ground arith in
    let next : (mem a).next ≡ first_or 0 cs = ap (λ (w : Cell). w.next) e in
    let count : 1 + length cs ≡ suc (length cs) = omega arith in
    rw (nz, next, fl_length-length mem cs f (omega arith) d lk (omega arith), count)

module _ {h : Heap} {cs : List Chunk} (w : IsHeap h cs) where
  flat : Spaced 0 1 cs
  flat = Spaced-weaken cs (omega arith) (omega arith) w.spaced

  few : length cs < rounds
  few = omega (arith, length-end_or 0 cs w.spaced, w.bounded)

-- On a well-formed heap `hgetstats` returns: it changes no counter, and the length that it reports is
-- the number of the free chunks.
pub hgetstats-length :
    (st : State) (cs : List Chunk)
    → IsHeap st.heap cs
    → hgetstats st ≡ ret (record st.stats { free_length = length cs })
unfolding hgetstats free_list_length
hgetstats-length st cs w =
    let e : fl_length rounds st.heap.mem st.heap.head ≡ ret (length cs) =
      ap (fl_length rounds st.heap.mem) w.head
      ∙ fl_length-length st.heap.mem cs rounds (omega arith) (flat w) w.linked (few w) in
    rw e

-- The result of `hmalloc` when it took a chunk from the free chunks `cs`.
pub record Allocated (cs : List Chunk) (request item : ℕ) (st' : State) (mapped : ℕ) (old : Stats)
    : Type 0 where
  pub p : ℕ
  pub start : item ≡ p + 8
  pub taken : Taken st'.heap cs p (chunk_size request)
  pub counted : st'.stats ≡ record old {
    pages_mapped = old.pages_mapped + mapped;
    chunks_allocated = old.chunks_allocated + 1;
  }

pub room_for : (request : ℕ) → 24 ≤ chunk_size request
unfolding chunk_size
room_for request = ground arith

module _ (mmap : State → ℕ → ℕ) where
  -- A chunk is in the list.
  Hit-Allocated :
      (f request : ℕ) (st : State) (cs : List Chunk) (p : ℕ)
      → IsHeap st.heap cs
      → chunk_size request < page_size
      → search_size rounds st.heap.mem st.heap.head (chunk_size request) ≡ ret p
      → 1 ≤ p
      → Hit (chunk_size request) cs p
      → Succeeds
          (hmalloc_fuel mmap (suc f) request st)
          λ (item, st'). Allocated cs request item st' 0 st.stats
  unfolding hmalloc_fuel
  Hit-Allocated f request st cs p w small found low hit =
      let n = chunk_size request in
      let whole = hit.us ++ (p, hit.s) ∷ hit.vs in
      let (h', run, taken) =
        take_chunk-Taken hit.us hit.vs p hit.s n st.heap (subst (IsHeap st.heap) hit.parts w)
          (room_for request) hit.large in
      let nz : (p == 0) ≡ false = ground arith in
      (
        (
          p + 8,
          record {
            heap = h';
            stats = record st.stats { chunks_allocated = st.stats.chunks_allocated + 1 };
          },
        ),
        rw (lt→not_leb page_size n small, found, nz, run),
        record {
          p = p;
          start = refl;
          taken = subst (λ c. Taken h' c p n) (sym hit.parts) taken;
          counted =
              (let e : st.stats.pages_mapped + 0 ≡ st.stats.pages_mapped = omega arith in
                ap
                  (λ (m : ℕ). record st.stats {
                    pages_mapped = m;
                    chunks_allocated = st.stats.chunks_allocated + 1;
                  })
                  (sym e));
        },
      )

again :
    (request : ℕ)
    → chunk_size request < page_size
    → chunk_size (chunk_size request - 8) ≡ chunk_size request
unfolding chunk_size
again request small = ground arith

-- What `mmap` has to give: a page of the address space, apart from the free chunks.
pub record IsPage (cs : List Chunk) (page : ℕ) : Type 0 where
  pub low : 1 ≤ page
  pub fits : page + page_size ≤ 2 ^ 64
  pub apart : IsApart cs page page_size

-- The chunks to choose from: the free ones, or, where all of these are too small, those and a page.
abbrev pub Pool : List Chunk → ℕ → ℕ → List Chunk → ℕ → Type 0
Pool cs n page pool mapped =
    ((pool ≡ cs) × (mapped ≡ 0))
    ⊎ (AllSmall n cs
        × (mapped ≡ 1)
        × ((x : ℕ) → covers pool x ≡ (covers cs x || inside page page_size x)))

module _ (mmap : State → ℕ → ℕ) (request : ℕ) (st : State) (cs : List Chunk) (w : IsHeap st.heap cs)
    (small : chunk_size request < page_size) (page : IsPage cs (mmap st page_size)) where
  abbrev Done : ℕ × State → Type 0
  Done (item, st') =
      (pool : List Chunk) × (mapped : ℕ) × Pool cs (chunk_size request) (mmap st page_size) pool
        mapped
      × Allocated pool request item st' mapped st.stats

  -- No chunk is large enough: a page is added, and the second call finds one.
  grow_Done :
      search_size rounds st.heap.mem st.heap.head (chunk_size request) ≡ ret 0
      → AllSmall (chunk_size request) cs
      → Succeeds (hmalloc_fuel mmap 2 request st) Done
  unfolding hmalloc_fuel add_page
  grow_Done missed all =
      let n = chunk_size request in
      let g =
        give st.heap cs (mmap st page_size) page_size w page.low (omega arith) page.fits
          page.apart in
      let h2 : Heap = record g.linked_in { mem = g.mem' } in
      let st2 : State = record {
        heap = h2;
        stats = record st.stats { pages_mapped = st.stats.pages_mapped + 1 };
      } in
      let same = again request small in
      let added : add_page (mmap st page_size) st.heap ≡ ret h2 = rw (g.run, g.run') in
      elim (search_size-Hit n h2.mem g.cs' rounds (omega arith) (flat g.is_heap) g.is_heap.linked
        (few g.is_heap)) [
          | inl (run, none_fits) ↦ absurd (
              not-AllSmall g.cs' (mmap st page_size) page_size n g.is_heap.spaced (omega arith)
                (omega arith) (λ x i. let e = g.same x in ground arith) none_fits)
          | inr (p, run, low, hit) ↦
              let found : search_size rounds h2.mem h2.head (chunk_size (n - 8)) ≡ ret p =
                ap₂ (search_size rounds h2.mem) g.is_heap.head same ∙ run in
              let ((item, st'), run', a) =
                Hit-Allocated mmap zero (n - 8) st2 g.cs' p g.is_heap
                  (subst (λ k. k < page_size) (sym same) small) found low
                  (subst (λ k. Hit k g.cs' p) (sym same) hit) in
              (
                (item, st'),
                rw (lt→not_leb page_size n small, missed, g.run, g.run') run',
                (
                  g.cs',
                  1,
                  inr (all, refl, g.same),
                  record {
                    p = a.p;
                    start = a.start;
                    taken = subst (λ k. Taken st'.heap g.cs' a.p k) same a.taken;
                    counted =
                        a.counted
                        ∙ (let e : st.stats.pages_mapped + 1 + 0 ≡ st.stats.pages_mapped + 1 =
                              omega arith in
                            ap
                              (λ (m : ℕ). record st.stats {
                                pages_mapped = m;
                                chunks_allocated = st.stats.chunks_allocated + 1;
                              })
                              e);
                  },
                ),
              )
        ]

  -- On a well-formed heap, for a request whose chunk is smaller than a page, and when `mmap` gives a
  -- page apart from the free chunks, `hmalloc` returns: it hands out the end of the header of a chunk
  -- of the size needed or up to 24 bytes more, whose bytes were free, or were in a page that it
  -- mapped because no free chunk was large enough. The heap stays well formed; the other free bytes,
  -- and no others, stay free, and the mapped page and the chunk are counted.
  pub hmalloc-Allocated : Succeeds (hmalloc mmap request st) Done
  unfolding hmalloc
  hmalloc-Allocated =
      let n = chunk_size request in
      elim (search_size-Hit n st.heap.mem cs rounds (omega arith) (flat w) w.linked (few w)) [
        | inl (run, all) ↦ grow_Done (ap (λ k. search_size rounds st.heap.mem k n) w.head ∙ run) all
        | inr (p, run, low, hit) ↦
            let ((item, st'), run', a) =
              Hit-Allocated mmap 1 request st cs p w small
                (ap (λ k. search_size rounds st.heap.mem k n) w.head ∙ run) low hit in
            ((item, st'), run', (cs, 0, inl (refl, refl), a))
      ]
