-- ===== src/Hmalloc/Tests.antt =====
-- A heap with two free chunks on which the theorems are used.
use cs.Base.{ℕ, ◌+◌, ◌*◌, ◌≡◌, refl, List, [], ◌∷◌, ◌||◌, arith, ◌==◌, if◌then◌else◌}
use cs.Base.{ret, Succeeds, ◌>>=◌}
use cs.Base.{Outcome}
use cs.Hmalloc.{
  hmalloc_fuel, search_size, take_chunk, split_chunk, insert_fl_cell, insert_loop, unlink_chunk,
  free_list_length, fl_length, set_size, set_next, set_last, make_fl_cell, link_before, link_behind,
  map_chunk, add_page, coalesce, coalesce_next, coalesce_last,
}
use cs.Hmalloc.{cell, Memory, State, page_size, chunk_size, hmalloc, hfree}
use cs.Hmalloc.Chunks.{Chunk, over, more, covers, inside}
use cs.Hmalloc.Linked.{Linked, link}
use cs.Hmalloc.Free.{IsHeap, IsApart, hfree-IsHeap}
use cs.Hmalloc.Alloc.{Allocated, IsPage, Pool, hmalloc-Allocated}
use cs.Hmalloc.RoundTrip.{hmalloc-hfree}

-- Free: 100 bytes at 4096 and 1000 at 5096. In use: 900 bytes at 4196, between them.
abbrev memory : Memory
memory x =
    if x == 4096
    then cell 100 5096 0
    else if x == 5096
    then cell 1000 0 4096
    else if x == 4196
    then cell 900 0 0
    else cell 0 0 0

abbrev start : State
start = record {
  heap = record { mem = memory; head = 4096 };
  stats = record {
    pages_mapped = 1;
    pages_unmapped = 0;
    chunks_allocated = 2;
    chunks_freed = 1;
    free_length = 0;
  };
}

abbrev chunks : List Chunk
chunks = (4096, 100) ∷ (5096, 1000) ∷ []

start-IsHeap : IsHeap start.heap chunks
start-IsHeap = record {
  spaced = more (omega arith) (omega arith) (more (omega arith) (omega arith) over);
  bounded = omega arith;
  linked =
      link {prev = 0} {n = 0} {p = 4096} {s = 100} {cs = (5096, 1000) ∷ []} refl
        (link {prev = 4096} {n = 0} {p = 5096} {s = 1000} {cs = []} refl Linked.over);
  head = refl;
}

used-IsApart : IsApart chunks 4196 900
unfolding covers inside
used-IsApart x h = ground arith

hfree-IsHeap_example : Succeeds (hfree (4196 + 8) start) λ st'.
    ((cs' : List Chunk) × IsHeap st'.heap cs'
      × ((x : ℕ) → covers cs' x ≡ (covers chunks x || inside 4196 900 x)))
    × (st'.stats ≡ record start.stats { chunks_freed = start.stats.chunks_freed + 1 })
hfree-IsHeap_example =
    hfree-IsHeap start chunks 4196 start-IsHeap (omega arith) (omega arith) (omega arith)
      (omega arith) used-IsApart

abbrev next_page : State → ℕ → ℕ
next_page st len = 8192

next_page-IsPage : IsPage chunks (next_page start page_size)
unfolding covers inside
next_page-IsPage = record { low = omega arith; fits = omega arith; apart = λ x h. ground arith }

hmalloc-Allocated_example : Succeeds (hmalloc next_page 2000 start) λ (item, st').
    (pool : List Chunk) × (mapped : ℕ) × Pool chunks
      (chunk_size 2000)
      (next_page start page_size)
      pool
      mapped
    × Allocated pool 2000 item st' mapped start.stats
unfolding chunk_size
hmalloc-Allocated_example =
    hmalloc-Allocated next_page 2000 start chunks start-IsHeap (omega arith) next_page-IsPage

hmalloc-hfree_example : Succeeds (hmalloc next_page 50 start >>= λ r. hfree r.0 r.1) λ st'.
    (pool : List Chunk) × (mapped : ℕ) × (cs' : List Chunk) × Pool chunks
      (chunk_size 50)
      (next_page start page_size)
      pool
      mapped
    × IsHeap st'.heap cs'
    × ((x : ℕ) → covers cs' x ≡ covers pool x)
    × (st'.stats ≡ record start.stats {
      pages_mapped = start.stats.pages_mapped + mapped;
      chunks_allocated = start.stats.chunks_allocated + 1;
      chunks_freed = start.stats.chunks_freed + 1;
    })
unfolding chunk_size
hmalloc-hfree_example =
    hmalloc-hfree next_page 50 start chunks start-IsHeap (omega arith) next_page-IsPage

-- The first chunk is large enough and is split: 42 bytes are left at 4154.
abbrev after_50 : Outcome ℕ
after_50 = hmalloc next_page 50 start >>= λ r.
    free_list_length r.1.heap >>= λ n. ret (r.0 + 100000 * n + 1000000 * r.1.heap.head)

after_50-run : after_50 ≡ ret (4104 + 200000 + 4154000000)
unfolding hmalloc hmalloc_fuel search_size take_chunk split_chunk insert_fl_cell insert_loop
    unlink_chunk free_list_length fl_length set_size set_next set_last make_fl_cell link_before
    link_behind chunk_size map_chunk add_page coalesce coalesce_next coalesce_last
after_50-run = refl
