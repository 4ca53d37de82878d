-- ===== src/Nufs/Pages.antt =====
-- hw10/starter-fshw/pages.c: where the parts of the image stand, and the allocation of pages.
-- `pages_init` maps the file, which is the kernel's; its writes to the image are `reserve`.
pub mod Alloc
use cs.Base.{ℕ, zero, suc, ◌+◌, ◌*◌, ◌==◌, Bool, Option, none, some, if◌then◌else◌}
use cs.Nufs.Bitmap.{bitmap_get, bitmap_set}
use cs.Nufs.Memory.{Disk}

abbrev pub page_count : ℕ
page_count = 256

-- The two writes at the end of `pages_init`.
unfoldable pub reserve : Disk → Disk
reserve d = bitmap_set (bitmap_set d 0 0 1) 0 1 1

abbrev pub pages_get_page : ℕ → ℕ
pages_get_page pnum = 4096 * pnum

abbrev pub get_pages_bitmap : ℕ
get_pages_bitmap = 0

abbrev pub get_inode_bitmap : ℕ
get_inode_bitmap = 32

abbrev pub get_inode_base : ℕ
get_inode_base = get_inode_bitmap + 32

-- The first clear bit of the bitmap at `bm`, from `i` on with `n` rounds left.
unfoldable pub first_clear : ℕ → ℕ → ℕ → Disk → Option ℕ
first_clear zero bm i d = none
first_clear (suc n) bm i d =
    let rest = first_clear n bm (i + 1) d in if bitmap_get d bm i == 0 then some i else rest

-- -1 is `none`.
unfoldable pub alloc_page : Disk → Option ℕ × Disk
unfolding first_clear
alloc_page d = elim (first_clear page_count get_pages_bitmap 0 d) [
  | none ↦ (none, d)
  | some i ↦ (some i, bitmap_set d get_pages_bitmap i 1)
]

unfoldable pub free_page : Disk → ℕ → Disk
free_page d pnum = bitmap_set d get_pages_bitmap pnum 0
