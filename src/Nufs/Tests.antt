-- ===== src/Nufs/Tests.antt =====
-- Small images on which the theorems are used.
use cs.Nufs.Directory.Delete.{directory_delete_lem}
use cs.Nufs.Directory.{directory_delete, entry, inum_at}
use native.Mathlib.Nat.{le_refl}
use cs.Base.{
  no_entry, false, ℕ, ◌+◌, ◌-◌, ◌%◌, ◌^◌, ◌<◌, ◌≡◌, ◌≢◌, refl, none, some, arith, pos, ◌==◌,
  if◌then◌else◌,
}
use cs.Base.{codes}
use cs.Nufs.Bitmap.{bitmap_get, bitmap_set}
use cs.Nufs.Bitmap.Bits.{bitmap_set-IsBytes}
use cs.Nufs.Directory.{
  find_name, find_empty, start_of, directory_lookup, directory_put, name_eq, find_first,
}
use cs.Nufs.Directory.Names.{IsName}
use cs.Nufs.Directory.Put.{IsDirectory, directory_put_lem}
use cs.Nufs.Inode.{
  return, inode_count, get_inode, refs, inode_get_pnum, grow_inode, free_inode, alloc_inode,
}
use cs.Nufs.Inode.Create.{Created, alloc_inode-Created}
use cs.Nufs.Inode.Free.{IsGone, free_inode-last}
use cs.Nufs.Inode.Grow.{grow_inode-first_page, first_page, grow_inode-overcounts}
use cs.Nufs.Inode.Image.{IsImage}
use cs.Nufs.Memory.{Disk, IsBytes, get32, put32}
use cs.Nufs.Memory.Laws.{put32-IsBytes}
use cs.Nufs.Pages.{page_count, get_pages_bitmap, get_inode_bitmap, reserve, alloc_page}
use cs.Nufs.Pages.Alloc.{Allocated, alloc_page-Allocated, reserve-Taken}
use cs.Nufs.Slist.{Text}

abbrev blank : Disk
blank x = 0

blank-IsBytes : IsBytes blank
blank-IsBytes x = omega arith

-- A new image.
abbrev fresh : Disk
fresh = reserve blank

fresh-IsImage : IsImage fresh
fresh-IsImage =
    let (b, t, t', o) = reserve-Taken blank blank-IsBytes in record { bytes = b; reserved = t }

-- Inode 0 with page 2 as its first page, and `r` references.
abbrev one_page : ℕ → Disk
one_page r = put32 (put32 (bitmap_set fresh 0 2 1) 76 2) 64 r

one_page-IsBytes : (r : ℕ) → IsBytes (one_page r)
one_page-IsBytes r =
    put32-IsBytes _ 64 r (put32-IsBytes _ 76 2 (bitmap_set-IsBytes fresh 0 2 1 fresh-IsImage.bytes))

-- Inode 0 with pages 2 and 3.
abbrev two_pages : Disk
two_pages = put32 (one_page 1) 80 3

alloc_page-Allocated_example : Allocated fresh (alloc_page fresh)
alloc_page-Allocated_example = alloc_page-Allocated fresh fresh-IsImage.bytes

grow_inode-first_page_example :
    Allocated fresh (alloc_page fresh)
    × (grow_inode 64 100 fresh ≡ first_page 64 (alloc_page fresh))
unfolding reserve bitmap_set get32 put32
grow_inode-first_page_example =
    grow_inode-first_page 64 100 fresh-IsImage (omega arith) refl refl (omega arith) (omega arith)

grow_inode-overcounts_example : grow_inode 64 10000 two_pages ≡ return (pos 0) two_pages
unfolding reserve bitmap_set get32 put32
grow_inode-overcounts_example =
    grow_inode-overcounts two_pages 64 10000 refl refl refl refl (omega arith) (omega arith)

alloc_inode-Created_example : Created fresh (alloc_inode fresh)
alloc_inode-Created_example = alloc_inode-Created fresh fresh-IsImage.bytes

free_inode-last_example :
    let d' = free_inode 0 (one_page 1) in
    IsGone d' 0
    × ((q : ℕ)
        → q < page_count
        → bitmap_get d' get_pages_bitmap q
          ≡ (if q == 2 then 0 else bitmap_get (one_page 1) get_pages_bitmap q))
    × ((q : ℕ)
        → q < inode_count
        → q ≢ 0
        → bitmap_get d' get_inode_bitmap q ≡ bitmap_get (one_page 1) get_inode_bitmap q)
unfolding reserve bitmap_set get32 put32
free_inode-last_example =
    free_inode-last 0 2 (one_page-IsBytes 1) (omega arith) refl (omega arith) (omega arith) refl
      refl refl

abbrev readme : Text
readme = codes "README"

readme-IsName : IsName readme
readme-IsName = omega arith

root-IsDirectory : IsDirectory (one_page 1) 64
unfolding start_of inode_get_pnum reserve bitmap_set get32 put32
root-IsDirectory = record { is_inode = (0, omega arith, refl); placed = le_refl 8192 }

readme-absent : find_name (one_page 1) (start_of (one_page 1) 64) readme ≡ none
unfolding find_name find_first name_eq start_of inode_get_pnum reserve bitmap_set get32 put32
readme-absent = refl

root-room : find_empty (one_page 1) (start_of (one_page 1) 64) ≡ some 0
unfolding find_empty find_first start_of inode_get_pnum reserve bitmap_set get32 put32
root-room = refl

directory_put_lem_example :
    let (rv, d') = directory_put (one_page 1) 64 readme 1 in
    (rv ≡ pos 0)
    × (directory_lookup d' 64 readme ≡ pos 1)
    × ((s : Text)
        → IsName s
        → s ≢ readme
        → directory_lookup d' 64 s ≡ directory_lookup (one_page 1) 64 s)
    × (get32 d' (refs (get_inode 1)) ≡ (get32 (one_page 1) (refs (get_inode 1)) + 1) % 2 ^ 32)
directory_put_lem_example =
    directory_put_lem readme 1 0 root-IsDirectory readme-IsName (omega arith) readme-absent
      root-room

-- The root in page 2, with inode 1 of two links as its first entry "a".
abbrev linked : Disk
linked x =
    if x == 76
    then 2
    else if x == 88
    then 2
    else if x == 8192
    then b'a'
    else if x == 8252
    then 1
    else 0

linked-IsDirectory : IsDirectory linked 64
unfolding start_of inode_get_pnum get32
linked-IsDirectory = record { is_inode = (0, omega arith, refl); placed = le_refl 8192 }

a-found : find_name linked (start_of linked 64) (codes "a") ≡ some 0
unfolding find_name find_first name_eq start_of inode_get_pnum get32
a-found = refl

a-alone : (j : ℕ) → j ≢ 0 → name_eq linked (entry (start_of linked 64) j) (codes "a") ≡ false
unfolding name_eq start_of inode_get_pnum get32
a-alone j ne = ground arith

a-number : get32 linked (inum_at (start_of linked 64) 0) ≡ 1
unfolding start_of inode_get_pnum get32
a-number = refl

a-links : get32 linked (refs (get_inode 1)) ≡ 2
unfolding get32
a-links = refl

directory_delete_lem_example :
    let (rv, d') = directory_delete linked 64 (codes "a") in
    (rv ≡ pos 0)
    × (directory_lookup d' 64 (codes "a") ≡ no_entry)
    × ((s : Text)
        → IsName s
        → s ≢ codes "a"
        → directory_lookup d' 64 s ≡ directory_lookup linked 64 s)
    × (get32 d' (refs (get_inode 1)) ≡ 2 - 1)
directory_delete_lem_example =
    directory_delete_lem (codes "a") 1 0 2 linked-IsDirectory (omega arith) (omega arith) a-found
      a-alone a-number a-links (omega arith) (omega arith)
