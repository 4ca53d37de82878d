-- ===== src/Nufs/Inode/Shrink.antt =====
-- `shrink_inode` to nothing, on an inode with one page.
use cs.Base.{
  ℕ, ◌+◌, ◌≤◌, ◌<◌, ◌≡◌, refl, ◌∙◌, ap, true, false, inl, arith, pos, ◌==◌, if◌then◌else◌,
}
use cs.Nufs.Bitmap.{bitmap_get}
use cs.Nufs.Bitmap.Bits.{bitmap_set-IsBytes, bitmap_set-outside}
use cs.Nufs.Inode.{
  next, return, dptr, iptr, shrink_indirect, shrink_iptr, shrink_direct, shrink_inode, pages_owned,
}
use cs.Nufs.Inode.Owned.{owned_none, owned_one}
use cs.Nufs.Inode.Image.{put32-page}
use cs.Nufs.Memory.{Disk, IsBytes, get32, put32, is_positive}
use cs.Nufs.Memory.Laws.{put32-IsBytes, put32-outside, get32-put32, get32-put32_ne}
use cs.Nufs.Pages.{page_count, get_pages_bitmap, free_page}
use cs.Nufs.Pages.Alloc.{free_page-free}

-- A page freed, with its pointer cleared.
abbrev pub released : ℕ → ℕ → Disk → Disk
released node p d = put32 (free_page (put32 d (iptr node) 0) p) (dptr node 0) 0

pub free_page-outside : (d : Disk) (p x : ℕ) → p < page_count → 32 ≤ x → free_page d p x ≡ d x
unfolding free_page
free_page-outside d p x lt lo = bitmap_set-outside d get_pages_bitmap p 0 x (omega arith)

pub released-IsBytes : (node p : ℕ) (d : Disk) → IsBytes d → IsBytes (released node p d)
unfolding free_page
released-IsBytes node p d b =
    put32-IsBytes _ (dptr node 0) 0
      (bitmap_set-IsBytes _ get_pages_bitmap p 0 (put32-IsBytes d (iptr node) 0 b))

-- Between the page bitmap and the inode nothing is written.
pub released-outside :
    (node p : ℕ) (d : Disk) (x : ℕ) → p < page_count → 32 ≤ x → x < node → released node p d x ≡ d x
released-outside node p d x lt lo hi =
    put32-outside _ (dptr node 0) 0 x (inl (omega arith))
    ∙ free_page-outside (put32 d (iptr node) 0) p x lt lo
    ∙ put32-outside d (iptr node) 0 x (inl (omega arith))

shrink_direct-skip :
    (node i : ℕ) (d : Disk)
    → is_positive (get32 d (dptr node i)) ≡ false
    → pages_owned d node ≡ 1
    → shrink_direct node 0 i d ≡ next d
unfolding shrink_direct
shrink_direct-skip node i d h e = rw (e, h) (rw e refl)

module _ {d : Disk} (node p : ℕ) (b : IsBytes d) (h : 32 ≤ node) (lt : p < page_count)
    (pos_p : 0 < p) (first : get32 d (dptr node 0) ≡ p)
    (second : is_positive (get32 d (dptr node 1)) ≡ false) (no_iptr : get32 d (iptr node) ≡ 0) where
  d1 : Disk
  d1 = put32 d (iptr node) 0

  word1 : (a : ℕ) → (a + 4 ≤ iptr node) → get32 d1 a ≡ get32 d a
  unfolding d1
  word1 a u = get32-put32_ne d (iptr node) 0 a (inl u)

  positive_p : is_positive p ≡ true
  positive_p = ground arith

  owned_before : pages_owned d1 node ≡ 1
  owned_before =
      owned_one d1 node (rw (word1 (dptr node 0) (omega arith), first) positive_p)
        (rw (word1 (dptr node 1) (omega arith)) second)

  owned_after : pages_owned (released node p d) node ≡ 0
  owned_after =
      owned_none (released node p d) node
        (rw (get32-put32 (free_page (put32 d (iptr node) 0) p) (dptr node 0) 0 (omega arith)) refl)

  last_round : shrink_direct node 0 0 d1 ≡ return (pos 0) (released node p d)
  unfolding shrink_direct d1
  last_round = rw (owned_before, word1 (dptr node 0) (omega arith), first, positive_p, owned_after)

  -- `shrink_inode` to size 0, over an image of bytes and an inode whose first direct pointer is its
  -- only page, returns 0: the page is free, no other page's bit changes, and no page is owned.
  pub shrink_inode-released :
      (shrink_inode node 0 d ≡ return (pos 0) (released node p d))
      × ((q : ℕ)
          → q < page_count
          → bitmap_get (released node p d) get_pages_bitmap q
            ≡ (if q == p then 0 else bitmap_get d get_pages_bitmap q))
      × (pages_owned (released node p d) node ≡ 0)
  unfolding shrink_inode shrink_iptr shrink_indirect d1
  shrink_inode-released = (
    rw
        (
          owned_one d node (rw first positive_p) second,
          no_iptr,
          shrink_direct-skip node 1 d1 (rw (word1 (dptr node 1) (omega arith)) second) owned_before,
        )
        (rw last_round),
    λ q u.
        put32-page (free_page d1 p) (dptr node 0) 0 q (omega arith) u
        ∙ free_page-free d1 p q (put32-IsBytes d (iptr node) 0 b)
        ∙ ap (λ n. if q == p then 0 else n) (put32-page d (iptr node) 0 q (omega arith) u),
    owned_after,
  )
