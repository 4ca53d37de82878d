-- ===== src/Nufs/Inode/Free.antt =====
-- `free_inode`: a link less, and the last link.
use cs.Base.{
  ℕ, ◌+◌, ◌-◌, ◌/◌, ◌%◌, ◌^◌, ◌≤◌, ◌<◌, ◌≡◌, ◌≢◌, ◌∙◌, ap, false, inl, inr, arith, ◌==◌,
  if◌then◌else◌, lt→not_leb,
}
use cs.Nufs.Bitmap.{bitmap_get, bitmap_set, to_bit}
use cs.Nufs.Bitmap.Bits.{
  bitmap_set-outside, bitmap_get-set_self, bitmap_get-set_ne, bitmap_get_congr,
}
use cs.Nufs.Inode.{inode_count, inode_size, get_inode, refs, dptr, iptr, free_inode}
use cs.Nufs.Inode.Image.{put32-page}
use cs.Nufs.Inode.Create.{inode_bit}
use cs.Nufs.Inode.Shrink.{released, released-IsBytes, released-outside, shrink_inode-released}
use cs.Nufs.Memory.{Disk, IsBytes, get32, put32, zero_fill, is_positive}
use cs.Nufs.Memory.Laws.{
  put32-IsBytes, zero_fill-IsBytes, put32-outside, zero_fill-outside, get32-zero_fill, get32-put32,
  get32-put32_ne, get32_congr,
}
use cs.Nufs.Pages.{page_count, get_pages_bitmap, get_inode_bitmap}

-- While other links remain, `free_inode` only counts one link less.
pub free_inode-shared :
    (d : Disk) (inum r : ℕ)
    → inum < inode_count
    → get32 d (refs (get_inode inum)) ≡ r
    → 1 < r
    → r < 2 ^ 32
    → free_inode inum d ≡ put32 d (refs (get_inode inum)) (r - 1)
unfolding free_inode
free_inode-shared d inum r lt e lo hi =
    let node = get_inode inum in
    let down : (r + 2 ^ 32 - 1) % 2 ^ 32 ≡ r - 1 = omega arith in
    let left : (r - 1 == 0) ≡ false = ground arith in
    rw (
      lt→not_leb (2 ^ 31) inum (omega arith),
      e,
      down,
      get32-put32 d (refs node) (r - 1) (omega arith),
      left,
    )

-- What stays of an inode: its bit is clear, its words are zero.
pub record IsGone (d : Disk) (inum : ℕ) : Type 0 where
  pub unmarked : bitmap_get d get_inode_bitmap inum ≡ 0
  pub cleared : (a : ℕ) → get_inode inum ≤ a → a + 4 ≤ get_inode inum + inode_size → get32 d a ≡ 0

module _ {d : Disk} (inum p : ℕ) (b : IsBytes d) (lt : inum < inode_count)
    (last : get32 d (refs (get_inode inum)) ≡ 1) (is_page : p < page_count) (pos_p : 0 < p)
    (first : get32 d (dptr (get_inode inum) 0) ≡ p)
    (second : is_positive (get32 d (dptr (get_inode inum) 1)) ≡ false)
    (no_iptr : get32 d (iptr (get_inode inum)) ≡ 0) where
  abbrev node : ℕ
  node = get_inode inum

  abbrev d1 : Disk
  d1 = put32 d (refs node) 0

  abbrev d2 : Disk
  d2 = released node p d1

  abbrev d3 : Disk
  d3 = zero_fill d2 node inode_size

  abbrev d4 : Disk
  d4 = bitmap_set d3 get_inode_bitmap inum 0

  word1 : (a : ℕ) → node + 4 ≤ a → get32 d1 a ≡ get32 d a
  word1 a lo = get32-put32_ne d (refs node) 0 a (inr lo)

  stays : (x : ℕ) → 32 ≤ x → x < node → d3 x ≡ d x
  stays x lo hi =
      zero_fill-outside d2 node inode_size x (inl hi)
      ∙ released-outside node p d1 x is_page lo hi
      ∙ put32-outside d (refs node) 0 x (inl hi)

  bytes3 : IsBytes d3
  bytes3 =
      zero_fill-IsBytes d2 node inode_size
        (released-IsBytes node p d1 (put32-IsBytes d (refs node) 0 b))

  page_bit :
      (q : ℕ) → q < page_count → bitmap_get d4 get_pages_bitmap q ≡ bitmap_get d2 get_pages_bitmap q
  page_bit q u =
      bitmap_get_congr d3 d4 get_pages_bitmap q
        (bitmap_set-outside d3 get_inode_bitmap inum 0 (get_pages_bitmap + q / 8) (omega arith))
      ∙ bitmap_get_congr d2 d3 get_pages_bitmap q
          (zero_fill-outside d2 node inode_size (get_pages_bitmap + q / 8) (inl (omega arith)))

  gone : IsGone d4 inum
  unfolding to_bit
  gone = record {
    unmarked = bitmap_get-set_self d3 get_inode_bitmap inum 0 bytes3;
    cleared = λ a lo hi.
        get32_congr d3 d4 a (λ x l u. bitmap_set-outside d3 get_inode_bitmap inum 0 x (omega arith))
        ∙ get32-zero_fill d2 node inode_size a lo hi;
  }

  -- Freeing the last link of an inode that has one direct page, over an image of bytes: the inode's
  -- bit is clear and its words are zero, its page is free, and no bit of another page or of another
  -- inode changes.
  pub free_inode-last :
      let d' = free_inode inum d in
      IsGone d' inum
      × ((q : ℕ)
          → q < page_count
          → bitmap_get d' get_pages_bitmap q
            ≡ (if q == p then 0 else bitmap_get d get_pages_bitmap q))
      × ((q : ℕ)
          → q < inode_count
          → q ≢ inum
          → bitmap_get d' get_inode_bitmap q ≡ bitmap_get d get_inode_bitmap q)
  unfolding free_inode
  free_inode-last =
      let (run, bits, owned) =
        shrink_inode-released {d = d1} node p (put32-IsBytes d (refs node) 0 b) (omega arith)
          is_page pos_p (word1 (dptr node 0) (omega arith) ∙ first)
          (rw (word1 (dptr node 1) (omega arith)) second)
          (word1 (iptr node) (omega arith) ∙ no_iptr) in
      rw
        (
          lt→not_leb (2 ^ 31) inum (omega arith),
          last,
          get32-put32 d (refs node) 0 (omega arith),
          run,
        )
        (
          gone,
          λ q u.
              page_bit q u
              ∙ bits q u
              ∙ ap (λ n. if q == p then 0 else n) (put32-page d (refs node) 0 q (omega arith) u),
          λ q u ne.
              bitmap_get-set_ne d3 get_inode_bitmap inum 0 q bytes3 ne
              ∙ inode_bit d d3 q u (λ x lo hi. stays x lo (omega arith)),
        )
