-- ===== src/OptMalloc.antt =====
-- chal2/starter-ch02/opt_malloc.c: free lists for the sixteen powers of two from 32 bytes to a megabyte.
-- Memory is a function from addresses to bytes, a `size_t` or a pointer is eight bytes, the lowest first,
-- and address 0 is NULL. `mmap` is a parameter that sees the state. The lock makes each call one step,
-- so the threads of a program make a sequence of calls. `munmap` has no effect that the model sees.
pub mod Words
pub mod Blocks
pub mod Chains
pub mod Lists
pub mod Refill
pub mod Redistribute
pub mod Free
pub mod Realloc
pub mod RoundTrip
mod Tests
pub mod Index
pub mod Alloc
use cs.Base.{
  ℕ, zero, suc, ◌+◌, ◌-◌, ◌*◌, ◌/◌, ◌%◌, ◌^◌, ◌≤◌, ◌<◌, min, max, ◌≡◌, ◌≢◌, ◌↔◌, refl, sym, ◌∙◌, ap,
  ap₂, subst, List, [], ◌∷◌, ◌++◌, map, reverse, Bool, true, false, not, ◌&&◌, ◌||◌, Option, none,
  some, ◌⊎◌, inl, inr, arith, ℤ, pos, negsuc, minus_one, no_entry, already_exists, ltb, leb, ◌==◌,
  if◌then◌else◌, ltb→lt, lt→ltb, le→not_ltb, leb→le, le→leb, lt→not_leb, not_leb→lt, not_ltb→le,
  ==_iff, Bool-cases, Option-cases, dec_lt, ℕ_discrete, length, All, get_or, take, drop, replicate,
}
use cs.Base.{
  Outcome, ret, fault, Fault, assertion, null_pointer, out_of_bounds, out_of_fuel, ◌>>=◌, ◌>>◌,
  assert,
}

abbrev pub Memory : Type 0
Memory = ℕ → ℕ

-- The `n` bytes from `a` on, as a number, and the write of such a number.
unfoldable pub load : ℕ → Memory → ℕ → ℕ
load zero mem a = 0
load (suc n) mem a = mem a + 256 * load n mem (a + 1)

unfoldable pub put8 : Memory → ℕ → ℕ → Memory
put8 mem a v x = if x == a then v else mem x

unfoldable pub store_bytes : ℕ → Memory → ℕ → ℕ → Memory
unfolding put8
store_bytes zero mem a v = mem
store_bytes (suc n) mem a v = store_bytes n (put8 mem a (v % 256)) (a + 1) (v / 256)

unfoldable pub get64 : Memory → ℕ → ℕ
unfolding load
get64 mem a = load 8 mem a

unfoldable pub put64 : Memory → ℕ → ℕ → Memory
unfolding store_bytes
put64 mem a v = store_bytes 8 mem a v

-- `memcpy(dst, src, n)`
unfoldable pub memcpy : Memory → ℕ → ℕ → ℕ → Memory
memcpy mem dst src n x = if leb dst x && ltb x (dst + n) then mem (src + (x - dst)) else mem x

abbrev pub heap_size : ℕ
heap_size = 1048576

abbrev pub cell_size : ℕ
cell_size = 24

-- The fields of `struct fl_cell` by their offsets: `size` at 0, `next` at 8, `last` at 16.
unfoldable pub make_fl_cell : Memory → ℕ → ℕ → Memory
make_fl_cell mem addr size = put64 (put64 (put64 mem addr size) (addr + 16) 0) (addr + 8) 0

-- The memory and the static array `heads`.
pub record Heap : Type 0 where
  pub mem : Memory
  pub heads : ℕ → ℕ

-- `heads[i]` and `heads[i] = p`
unfoldable pub get_head : Heap → ℕ → Outcome ℕ
get_head h i = if ltb i 16 then ret (h.heads i) else fault out_of_bounds

unfoldable pub set_head : Heap → ℕ → ℕ → Outcome Heap
set_head h i p =
    if ltb i 16
    then ret (record h { heads = λ j. if j == i then p else h.heads j })
    else fault out_of_bounds

-- `pow(2, i + 5)`
unfoldable pub chunk : ℕ → ℕ
chunk i = 2 ^ (i + 5)

unfoldable pub pop : Heap → ℕ → Outcome (ℕ × Heap)
unfolding get_head set_head
pop h index = do
  temp ← get_head h index
  h' ← if temp == 0 then fault null_pointer else set_head h index (get64 h.mem (temp + 8))
  ret (temp, h')

unfoldable pub insert_fl_cell : Heap → ℕ → ℕ → Outcome Heap
unfolding get_head set_head
insert_fl_cell h i cell = do
  head ← get_head h i
  set_head (record h { mem = put64 h.mem (cell + 8) head }) i cell

unfoldable pub pull_from_above : Heap → ℕ → Outcome Heap
unfolding pop insert_fl_cell make_fl_cell chunk
pull_from_above h i = do
  (snatched, h1) ← pop h (i + 1)
  let size = chunk i
  let new_cell = snatched + size
  h2 ←
      insert_fl_cell (record h1 { mem = make_fl_cell (put64 h1.mem snatched size) new_cell size }) i
        new_cell
  insert_fl_cell h2 i snatched

-- The recursion of `redistribute`, which ends at the last list.
unfoldable pub redistribute_fuel : (Heap → ℕ → ℕ) → ℕ → Heap → ℕ → Outcome Heap
unfolding get_head set_head pull_from_above make_fl_cell
redistribute_fuel mmap zero h i = fault out_of_fuel
redistribute_fuel mmap (suc f) h i =
    let new_cell = mmap h heap_size in
    let mapped = set_head (record h { mem = make_fl_cell h.mem new_cell heap_size }) 15 new_cell in
    let split = redistribute_fuel mmap f h (i + 1) >>= λ h'. pull_from_above h' i in
    get_head h i >>= λ head. if head == 0 then (if i == 15 then mapped else split) else ret h

unfoldable pub redistribute : (Heap → ℕ → ℕ) → Heap → ℕ → Outcome Heap
unfolding redistribute_fuel
redistribute mmap h i = redistribute_fuel mmap 16 h i

-- The loop of `get_fl_index` from `i` on, with `n` rounds left.
unfoldable pub index_from : ℕ → ℕ → ℕ → Outcome ℕ
unfolding chunk
index_from zero i size = fault assertion
index_from (suc n) i size =
    let rest = index_from n (i + 1) size in if leb size (chunk i) then ret i else rest

unfoldable pub get_fl_index : ℕ → Outcome ℕ
unfolding index_from
get_fl_index size = index_from 16 0 size

-- The size that is served.
unfoldable pub at_least_cell : ℕ → ℕ
at_least_cell size = if ltb size cell_size then cell_size else size

unfoldable pub xmalloc_helper : (Heap → ℕ → ℕ) → ℕ → Heap → Outcome (ℕ × Heap)
unfolding redistribute get_fl_index pop at_least_cell
xmalloc_helper mmap request h =
    let size = at_least_cell request in
    let new_page = mmap h size in
    if ltb heap_size size
    then ret (new_page + 8, record h { mem = put64 h.mem new_page size })
    else do
      fl_index ← get_fl_index size
      h' ← redistribute mmap h fl_index
      (designated, h'') ← pop h' fl_index
      assert (ltb 0 designated)
      ret (designated + 8, h'')

unfoldable pub xmalloc : (Heap → ℕ → ℕ) → ℕ → Heap → Outcome (ℕ × Heap)
unfolding xmalloc_helper
xmalloc mmap size h = xmalloc_helper mmap ((size + 8) % 2 ^ 64) h

-- `((size_t*) item) - 1`, where the access to it behind NULL faults.
unfoldable pub cell_of : ℕ → Outcome ℕ
cell_of item = if ltb item 8 then fault null_pointer else ret (item - 8)

unfoldable pub xfree_helper : ℕ → Heap → Outcome Heap
unfolding cell_of get_fl_index insert_fl_cell
xfree_helper item h = do
  cell_addr ← cell_of item
  let size = get64 h.mem cell_addr
  if ltb heap_size size then ret h else get_fl_index size >>= λ i. insert_fl_cell h i cell_addr

unfoldable pub xfree : ℕ → Heap → Outcome Heap
unfolding xfree_helper
xfree item h = xfree_helper item h

-- A new block with the bytes of the old one, which has `size` bytes and is freed.
unfoldable pub move_item : (Heap → ℕ → ℕ) → ℕ → ℕ → ℕ → Heap → Outcome (ℕ × Heap)
unfolding xmalloc_helper xfree_helper memcpy
move_item mmap item size new_size h = do
  (new_item, h1) ← xmalloc_helper mmap new_size h
  h2 ← xfree_helper item (record h1 { mem = memcpy h1.mem new_item item (size - 8) })
  ret (new_item, h2)

-- `xrealloc_helper` of an item to a size that is not 0.
unfoldable pub resize : (Heap → ℕ → ℕ) → ℕ → ℕ → Heap → Outcome (ℕ × Heap)
resize mmap item new_size h = do
  cell_addr ← cell_of item
  let size = get64 h.mem cell_addr
  if leb new_size size then ret (item, h) else move_item mmap item size new_size h

unfoldable pub xrealloc_helper : (Heap → ℕ → ℕ) → ℕ → ℕ → Heap → Outcome (ℕ × Heap)
unfolding resize
xrealloc_helper mmap item request h =
    if item == 0
    then xmalloc_helper mmap ((request + 8) % 2 ^ 64) h
    else (if request == 0
        then (xfree_helper item h >>= λ h'. ret (0, h'))
        else resize mmap item ((request + 8) % 2 ^ 64) h)

unfoldable pub xrealloc : (Heap → ℕ → ℕ) → ℕ → ℕ → Heap → Outcome (ℕ × Heap)
unfolding xrealloc_helper
xrealloc mmap item new_size h = xrealloc_helper mmap item new_size h
