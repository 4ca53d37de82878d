-- ===== src/Hmalloc/RoundTrip.antt =====
-- `hfree` of what `hmalloc` handed out.
use cs.Base.{ℕ, ◌+◌, ◌<◌, ◌≡◌, sym, ◌∙◌, ap, subst, List, ◌||◌, arith}
use cs.Base.{Succeeds, ◌>>=◌}
use cs.Hmalloc.{Stats, State, page_size, chunk_size, hmalloc, hfree}
use cs.Hmalloc.Chunks.{Chunk, covers, inside}
use cs.Hmalloc.Free.{IsHeap, IsApart, hfree-IsHeap}
use cs.Hmalloc.Alloc.{IsPage, Pool, hmalloc-Allocated, room_for}

-- On a well-formed heap, for a request whose chunk is at least 25 bytes smaller than a page, and
-- when `mmap` gives a page apart from the free chunks: `hmalloc` and then `hfree` of its result
-- return, the heap is well formed, and the same bytes are free as before, with those of the page
-- where one was mapped; one chunk is counted as allocated and one as freed.
pub hmalloc-hfree :
    (mmap : State → ℕ → ℕ) (request : ℕ) (st : State) (cs : List Chunk)
    → IsHeap st.heap cs
    → chunk_size request + 24 < page_size
    → IsPage cs (mmap st page_size)
    → Succeeds (hmalloc mmap request st >>= λ r. hfree r.0 r.1) λ st'.
      (pool : List Chunk) × (mapped : ℕ) × (cs' : List Chunk) × Pool cs
        (chunk_size request)
        (mmap st page_size)
        pool
        mapped
      × IsHeap st'.heap cs'
      × ((x : ℕ) → covers cs' x ≡ covers pool x)
      × (st'.stats ≡ record st.stats {
        pages_mapped = st.stats.pages_mapped + mapped;
        chunks_allocated = st.stats.chunks_allocated + 1;
        chunks_freed = st.stats.chunks_freed + 1;
      })
hmalloc-hfree mmap request st cs w small page =
    let ((item, st1), run, (pool, mapped, from, a)) =
      hmalloc-Allocated mmap request st cs w (omega arith) page in
    let t = a.taken in
    let s = (st1.heap.mem a.p).size in
    let header : s ≡ t.size = t.header in
    let apart : IsApart t.left a.p s = subst (IsApart t.left a.p) (sym header) t.apart in
    let (st2, run', ((cs', is_heap, same), counted)) =
      hfree-IsHeap st1 t.left a.p t.is_heap t.low (omega (arith, t.enough, room_for request))
        (omega (arith, t.tight)) (omega (arith, t.fits)) apart in
    let more_freed : Stats → Stats = λ c. record c { chunks_freed = c.chunks_freed + 1 } in
    (
      st2,
      rw run (ap (λ i. hfree i st1) a.start ∙ run'),
      (
        pool,
        mapped,
        cs',
        from,
        is_heap,
        λ x. same x ∙ ap (λ k. covers t.left x || inside a.p k x) header ∙ sym (t.whole x),
        counted ∙ ap more_freed a.counted,
      ),
    )
