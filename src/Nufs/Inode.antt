-- ===== src/Nufs/Inode.antt =====
-- hw10/starter-fshw/inode.c. An inode is the offset of its struct in the image.
-- Sizes are not negative and fit an `int`. A counted loop has its rounds left as first argument,
-- so it needs no fuel.
pub mod Image
pub mod Owned
pub mod Grow
pub mod Shrink
pub mod Create
pub mod Free
use cs.Base.{
  ℕ, zero, suc, ◌+◌, ◌-◌, ◌*◌, ◌%◌, ◌^◌, Bool, true, false, not, ◌&&◌, Option, none, some, ℤ, pos,
  minus_one, ltb, leb, ◌==◌, if◌then◌else◌,
}
use cs.Nufs.Bitmap.{bitmap_set}
use cs.Nufs.Memory.{Disk, get32, put32, zero_fill, is_positive}
use cs.Nufs.Pages.{
  pages_get_page, get_inode_bitmap, get_inode_base, first_clear, alloc_page, free_page,
}

abbrev pub inode_count : ℕ
inode_count = 256

-- `sizeof(inode)`: refs, mode, size, dptrs[2], iptr.
abbrev pub inode_size : ℕ
inode_size = 24

abbrev pub get_inode : ℕ → ℕ
get_inode inum = get_inode_base + inode_size * inum

abbrev pub refs : ℕ → ℕ
refs node = node

abbrev pub mode : ℕ → ℕ
mode node = node + 4

abbrev pub size_of : ℕ → ℕ
size_of node = node + 8

abbrev pub dptr : ℕ → ℕ → ℕ
dptr node i = node + 12 + 4 * i

abbrev pub iptr : ℕ → ℕ
iptr node = node + 20

-- -1 is `none`; `0100644` is the mode of a file.
unfoldable pub alloc_inode : Disk → Option ℕ × Disk
alloc_inode d = elim (first_clear inode_count get_inode_bitmap 0 d) [
  | none ↦ (none, d)
  | some ii ↦
      let cleared = zero_fill d (get_inode ii) inode_size in
      (some ii, bitmap_set (put32 cleared (mode (get_inode ii)) 0o100644) get_inode_bitmap ii 1)
]

unfoldable pub inode_get_pnum : Disk → ℕ → ℕ → ℕ
inode_get_pnum d node fpn =
    if ltb fpn 2
    then get32 d (dptr node fpn)
    else get32 d (pages_get_page (get32 d (iptr node)) + 4 * (fpn - 2))

-- The loop of `pages_owned`, which leaves at the first entry that is not positive.
unfoldable pub owned_from : ℕ → ℕ → ℕ → Disk → ℕ → ℕ
owned_from zero i ans d node = ans
owned_from (suc n) i ans d node =
    let rest = owned_from n (i + 1) (ans + 1) d node in
    if is_positive (inode_get_pnum d node i) then rest else ans

unfoldable pub pages_owned : Disk → ℕ → ℕ
pages_owned d node = owned_from 1026 0 0 d node

-- What a piece of a function does: it returns, or control goes on behind it. `ended` is the end of a
-- function that was to return an `int`, with no `return`.
pub data Flow : Type 0 where
  next : Disk → Flow
  return : ℤ → Disk → Flow
  ended : Disk → Flow

infixl 5 ◌>>=◌
abbrev pub ◌>>=◌ : Flow → (Disk → Flow) → Flow
next d >>= k = k d
return v d >>= k = return v d
ended d >>= k = ended d

-- `if (pages_owned(node) * 4096 >= size) return 0;`
unfoldable pub enough : ℕ → ℕ → Disk → Flow
enough node size d = if leb size (pages_owned d node * 4096) then return (pos 0) d else next d

-- `p = alloc_page(); if (p < 0) return p; *(int*) a = p;`
unfoldable pub alloc_into : ℕ → Disk → Flow
alloc_into a d =
    let (page, d') = alloc_page d in
    elim page [ none ↦ return minus_one d' | some p ↦ next (put32 d' a p) ]

-- A round of the loop over the direct pointers.
unfoldable pub grow_direct : ℕ → ℕ → ℕ → Disk → Flow
unfolding enough alloc_into
grow_direct node size i d =
    (if ltb (pages_owned d node * 4096) size && not (is_positive (get32 d (dptr node i)))
      then alloc_into (dptr node i) d
      else next d)
    >>= enough node size

unfoldable pub grow_iptr : ℕ → Disk → Flow
unfolding alloc_into
grow_iptr node d = if get32 d (iptr node) == 0 then alloc_into (iptr node) d else next d

-- The loop over the indirect pointers, which stand at `page_nums`.
unfoldable pub grow_indirect : ℕ → ℕ → ℕ → ℕ → ℕ → Disk → Flow
unfolding enough alloc_into
grow_indirect zero i page_nums node size d = ended d
grow_indirect (suc n) i page_nums node size d =
    let added =
      (if ltb (pages_owned d node * 4096) size then alloc_into (page_nums + 4 * i) d else next d) in
    added >>= enough node size >>= grow_indirect n (i + 1) page_nums node size

unfoldable pub grow_inode : ℕ → ℕ → Disk → Flow
grow_inode node size d =
    if ltb (1026 * 4096) size
    then return minus_one d
    else (grow_direct node size 0 d >>= grow_direct node size 1 >>= grow_iptr node >>= λ d'.
        grow_indirect 1024 0 (pages_get_page (get32 d' (iptr node))) node size d')

-- The loop over the indirect pointers. The entry is `page_nums[pages_owned(node) - 2 - 1]`, also where
-- that index is negative.
unfoldable pub shrink_indirect : ℕ → ℕ → ℕ → Disk → Flow
unfolding enough
shrink_indirect zero node size d = next d
shrink_indirect (suc n) node size d =
    let entry = pages_get_page (get32 d (iptr node)) + 4 * pages_owned d node - 12 in
    let shrunk =
      (if ltb size (pages_owned d node * 4096)
        then put32 (free_page d (get32 d entry)) entry 0
        else d) in
    (if leb (pages_owned shrunk node * 4096) size then return (pos 0) shrunk else next shrunk)
    >>= shrink_indirect n node size

unfoldable pub shrink_iptr : ℕ → Disk → Disk
shrink_iptr node d =
    put32 (if get32 d (iptr node) == 0 then d else free_page d (get32 d (iptr node))) (iptr node) 0

-- A round of the loop over the direct pointers.
unfoldable pub shrink_direct : ℕ → ℕ → ℕ → Disk → Flow
shrink_direct node size i d =
    let shrunk =
      (if ltb size (pages_owned d node * 4096) && is_positive (get32 d (dptr node i))
        then put32 (free_page d (get32 d (dptr node i))) (dptr node i) 0
        else d) in
    if leb (pages_owned shrunk node * 4096) size then return (pos 0) shrunk else next shrunk

unfoldable pub shrink_inode : ℕ → ℕ → Disk → Flow
shrink_inode node size d =
    shrink_indirect (pages_owned d node - 2) node size d
    >>= (λ d'. next (shrink_iptr node d'))
    >>= shrink_direct node size 1
    >>= shrink_direct node size 0
    >>= ended

-- The image behind a call whose result is not used.
abbrev pub image : Flow → Disk
image (next d) = d
image (return v d) = d
image (ended d) = d

-- `inum` is an `int` pattern: with its sign bit set nothing is done.
unfoldable pub free_inode : ℕ → Disk → Disk
free_inode inum d =
    let node = get_inode inum in
    let d' = put32 d (refs node) ((get32 d (refs node) + 2 ^ 32 - 1) % 2 ^ 32) in
    let released =
      bitmap_set (zero_fill (image (shrink_inode node 0 d')) node inode_size) get_inode_bitmap inum
        0 in
    if leb (2 ^ 31) inum then d else (if get32 d' (refs node) == 0 then released else d')
