-- ===== src/Nufs/Inode/Image.antt =====
-- What an image is for hw10/starter-fshw/inode.c, and writes behind its page bitmap.
use cs.Base.{ℕ, ◌+◌, ◌/◌, ◌≤◌, ◌<◌, ◌≡◌, inl, arith}
use cs.Nufs.Bitmap.{bitmap_get}
use cs.Nufs.Bitmap.Bits.{bitmap_get_congr}
use cs.Nufs.Memory.{Disk, IsBytes, put32}
use cs.Nufs.Memory.Laws.{put32-outside}
use cs.Nufs.Pages.{page_count, get_pages_bitmap}
use cs.Nufs.Pages.Alloc.{Taken}

-- An image of bytes whose first page is reserved, as `pages_init` leaves it.
pub record IsImage (d : Disk) : Type 0 where
  pub bytes : IsBytes d
  pub reserved : Taken d 0

-- A write behind the page bitmap changes no page's bit.
pub put32-page :
    (d : Disk) (a v q : ℕ)
    → 32 ≤ a
    → q < page_count
    → bitmap_get (put32 d a v) get_pages_bitmap q ≡ bitmap_get d get_pages_bitmap q
put32-page d a v q h lt =
    bitmap_get_congr d (put32 d a v) get_pages_bitmap q
      (put32-outside d a v (get_pages_bitmap + q / 8) (inl (omega arith)))
