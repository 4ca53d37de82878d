-- ===== src/Hmalloc.antt =====
-- hw08/hw08-assignment/hmalloc.c. Memory is a function from addresses to the cell that starts there:
-- the header of a chunk in use is the `size` of its cell. The pages come from `mmap`, which is a
-- parameter and sees the state; address 0 is NULL. `size_t` keeps its wrap-around where a sum can
-- reach it; the counters are numbers.
pub mod Chunks
pub mod Linked
pub mod Place
pub mod Insert
pub mod Merge
pub mod Coalesce
pub mod Free
pub mod Search
pub mod Unlink
pub mod Take
pub mod Alloc
pub mod RoundTrip
mod Tests
use cs.Base.{
  null_pointer, ℕ, zero, suc, ◌+◌, ◌-◌, ◌*◌, ◌/◌, ◌%◌, ◌^◌, ◌&&◌, Outcome, ret, fault, assertion,
  out_of_fuel, ◌>>=◌, ltb, leb, ◌==◌, if◌then◌else◌,
}

-- `struct fl_cell`
pub record Cell : Type 0 where
  pub size : ℕ
  pub next : ℕ
  pub last : ℕ

abbrev pub cell : ℕ → ℕ → ℕ → Cell
cell size next last = record { size = size; next = next; last = last }

abbrev pub Memory : Type 0
Memory = ℕ → Cell

abbrev pub cell_size : ℕ
cell_size = 24

abbrev pub page_size : ℕ
page_size = 4096

-- `a->size = v` and its like
unfoldable pub set_size : Memory → ℕ → ℕ → Memory
set_size mem a v x = if x == a then record (mem x) { size = v } else mem x

unfoldable pub set_next : Memory → ℕ → ℕ → Memory
set_next mem a v x = if x == a then record (mem x) { next = v } else mem x

unfoldable pub set_last : Memory → ℕ → ℕ → Memory
set_last mem a v x = if x == a then record (mem x) { last = v } else mem x

-- The memory and the static `head`.
pub record Heap : Type 0 where
  pub mem : Memory
  pub head : ℕ

-- `hm_stats`; `free_length` is set where the statistics are asked for.
pub record Stats : Type 0 where
  pub pages_mapped : ℕ
  pub pages_unmapped : ℕ
  pub chunks_allocated : ℕ
  pub chunks_freed : ℕ
  pub free_length : ℕ

pub record State : Type 0 where
  pub heap : Heap
  pub stats : Stats

-- Each loop over the list ends at the latest when every address has been met.
abbrev pub rounds : ℕ
rounds = 2 ^ 64

unfoldable pub make_fl_cell : Memory → ℕ → ℕ → Memory
make_fl_cell mem addr size x = if x == addr then cell size 0 0 else mem x

unfoldable pub fl_length : ℕ → Memory → ℕ → Outcome ℕ
fl_length zero mem p = fault out_of_fuel
fl_length (suc f) mem p =
    let rest = fl_length f mem (mem p).next >>= λ n. ret (1 + n) in if p == 0 then ret 0 else rest

unfoldable pub free_list_length : Heap → Outcome ℕ
free_list_length h = fl_length rounds h.mem h.head

-- `hgetstats`, and `hprintstats` without its output.
unfoldable pub hgetstats : State → Outcome Stats
hgetstats st = free_list_length st.heap >>= λ n. ret (record st.stats { free_length = n })

unfoldable pub div_up : ℕ → ℕ
div_up xx = let zz = xx / page_size in if zz * page_size == xx then zz else zz + 1

-- The two ways to put a cell into the list: in front of `cur`, and behind it at the end.
unfoldable pub link_before : ℕ → ℕ → Heap → Heap
unfolding set_next set_last
link_before cur new h =
    let prev = (h.mem cur).last in
    let linked : Heap =
      (if prev == 0 then record { mem = set_last h.mem new 0; head = new } else record {
        mem = (let m = set_next h.mem prev new in set_last m new (m cur).last);
        head = h.head;
      }) in
    record linked { mem = set_last (set_next linked.mem new cur) cur new }

unfoldable pub link_behind : ℕ → ℕ → Heap → Heap
unfolding set_next set_last
link_behind cur new h = record h {
  mem = set_next (set_last (set_next h.mem cur new) new cur) new 0;
}

-- The loop of `insert_fl_cell`.
unfoldable pub insert_loop : ℕ → ℕ → ℕ → Heap → Outcome Heap
unfolding link_before link_behind
insert_loop zero cur new h = fault out_of_fuel
insert_loop (suc f) cur new h =
    let rest = insert_loop f (h.mem cur).next new h in
    if cur == 0
    then ret h
    else (if ltb new cur
        then ret (link_before cur new h)
        else (if (h.mem cur).next == 0 then ret (link_behind cur new h) else rest))

unfoldable pub insert_fl_cell : ℕ → Heap → Outcome Heap
insert_fl_cell new h =
    if h.head == 0
    then ret (record { mem = set_next (set_last h.mem new 0) new 0; head = new })
    else insert_loop rounds h.head new h

unfoldable pub find_last : ℕ → Memory → ℕ → Outcome ℕ
find_last zero mem p = fault out_of_fuel
find_last (suc f) mem p =
    let rest = find_last f mem (mem p).next in
    if p == 0 then ret 0 else (if (mem p).next == 0 then ret p else rest)

-- NULL is 0.
unfoldable pub search_size : ℕ → Memory → ℕ → ℕ → Outcome ℕ
search_size zero mem p size = fault out_of_fuel
search_size (suc f) mem p size =
    let rest = search_size f mem (mem p).next size in
    if p == 0 then ret 0 else (if leb size (mem p).size then ret p else rest)

unfoldable pub split_chunk : ℕ → ℕ → Heap → Outcome Heap
split_chunk p size h =
    let leftover = (h.mem p).size - size in
    let m = make_fl_cell (set_size h.mem p size) (p + size) leftover in
    insert_fl_cell (p + size) (record h { mem = m })

-- The two halves of `coalesce`.
unfoldable pub coalesce_next : ℕ → Memory → Outcome Memory
coalesce_next p mem =
    let next = (mem p).next in
    let cell_end = p + (mem p).size in
    let merged = set_size (set_next mem p (mem next).next) p ((mem p).size + (mem next).size) in
    if next == 0
    then ret mem
    else (if cell_end == next
        then ret (if (mem next).next == 0 then merged else set_last merged (mem next).next p)
        else (if ltb next cell_end && ltb p next then fault assertion else ret mem))

unfoldable pub coalesce_last : ℕ → Memory → Outcome Memory
coalesce_last p mem =
    let last = (mem p).last in
    let last_end = last + (mem last).size in
    let merged = set_size (set_next mem last (mem p).next) last ((mem last).size + (mem p).size) in
    if last == 0
    then ret mem
    else (if last_end == p
        then ret (if (mem p).next == 0 then merged else set_last merged (mem p).next last)
        else (if ltb p last_end && ltb last p then fault assertion else ret mem))

unfoldable pub coalesce : ℕ → Memory → Outcome Memory
coalesce p mem = coalesce_next p mem >>= coalesce_last p

-- The cell leaves the list; the links are read once it has been split.
unfoldable pub unlink_chunk : ℕ → Heap → Heap
unlink_chunk p h =
    let last = (h.mem p).last in
    let next = (h.mem p).next in
    let m = if last == 0 then h.mem else set_next h.mem last next in
    let m' = if next == 0 then m else set_last m next last in
    record { mem = m'; head = if h.head == p then next else h.head }

-- The branch of `hmalloc` for a chunk of the free list.
unfoldable pub take_chunk : ℕ → ℕ → Heap → Outcome Heap
unfolding unlink_chunk
take_chunk p size h =
    (if ltb cell_size ((h.mem p).size - size) then split_chunk p size h else ret h) >>= λ h'.
    ret (unlink_chunk p h')

-- The other: a new page goes into the list.
unfoldable pub add_page : ℕ → Heap → Outcome Heap
add_page page h = do
  h' ← insert_fl_cell page (record h { mem = make_fl_cell h.mem page page_size })
  m ← coalesce page h'.mem
  ret (record h' { mem = m })

-- The size of a chunk for a request.
unfoldable pub chunk_size : ℕ → ℕ
chunk_size size = let sum = (size + 8) % 2 ^ 64 in if ltb sum cell_size then cell_size else sum

module _ (mmap : State → ℕ → ℕ) where
  -- A request of a page or more is mapped by itself.
  unfoldable pub map_chunk : ℕ → State → ℕ × State
  map_chunk size st =
      let num_mmap = div_up size in
      let len = num_mmap * page_size % 2 ^ 64 in
      let page = mmap st len in
      let stats = record st.stats {
        pages_mapped = st.stats.pages_mapped + num_mmap;
        chunks_allocated = st.stats.chunks_allocated + 1;
      } in
      (
        page + 8,
        record { heap = record st.heap { mem = set_size st.heap.mem page len }; stats = stats },
      )

  -- The depth of the recursion: after one call there is a chunk that is large enough.
  unfoldable pub hmalloc_fuel : ℕ → ℕ → State → Outcome (ℕ × State)
  unfolding map_chunk
  hmalloc_fuel zero request st = fault out_of_fuel
  hmalloc_fuel (suc f) request st =
      let size = chunk_size request in
      let taken = λ (p : ℕ). take_chunk p size st.heap >>= λ h. ret (
        p + 8,
        record {
          heap = h;
          stats = record st.stats { chunks_allocated = st.stats.chunks_allocated + 1 };
        },
      ) in
      let grown = add_page (mmap st page_size) st.heap >>= λ h.
      hmalloc_fuel f (size - 8) (record {
        heap = h;
        stats = record st.stats { pages_mapped = st.stats.pages_mapped + 1 };
      }) in
      if leb page_size size
      then ret (map_chunk size st)
      else (search_size rounds st.heap.mem st.heap.head size >>= λ p.
          if p == 0 then grown else taken p)

  unfoldable pub hmalloc : ℕ → State → Outcome (ℕ × State)
  unfolding hmalloc_fuel
  hmalloc size st = hmalloc_fuel 2 size st

-- The chunk of `item` starts 8 bytes before it; there is none before address 8.
unfoldable pub hfree : ℕ → State → Outcome State
hfree item st =
    let p = item - 8 in
    let size = (st.heap.mem p).size in
    let freed = st.stats.chunks_freed + 1 in
    let returned =
      (insert_fl_cell p (record st.heap { mem = make_fl_cell st.heap.mem p size }) >>= λ h.
      coalesce p h.mem >>= λ m.
      ret (record {
        heap = record h { mem = m };
        stats = record st.stats { chunks_freed = freed };
      })) in
    if ltb item 8
    then fault null_pointer
    else if leb page_size size
    then ret (record st {
      stats = record st.stats {
        pages_unmapped = st.stats.pages_unmapped + div_up size;
        chunks_freed = freed;
      };
    })
    else returned
