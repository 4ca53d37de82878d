-- ===== src/Nufs/Inode/Create.antt =====
-- `alloc_inode` and `free_inode`.
use cs.Base.{
  ℕ, ◌+◌, ◌/◌, ◌≤◌, ◌<◌, ◌≡◌, ◌≢◌, refl, ◌∙◌, ap₂, Option, none, some, ◌⊎◌, arith, ◌==◌,
  if◌then◌else◌,
}
use cs.Nufs.Bitmap.{bitmap_get, bitmap_set, to_bit}
use cs.Nufs.Bitmap.Bits.{bitmap_set-IsBytes, bitmap_set-outside, bitmap_get-set, bitmap_get_congr}
use cs.Nufs.Inode.{inode_count, inode_size, get_inode, refs, mode, size_of, dptr, iptr, alloc_inode}
use cs.Nufs.Memory.{Disk, IsBytes, get32, put32, zero_fill}
use cs.Nufs.Memory.Laws.{
  put32-IsBytes, zero_fill-IsBytes, put32-outside, zero_fill-outside, get32-zero_fill, get32-put32,
  get32-put32_ne, get32_congr,
}
use cs.Nufs.Pages.{get_inode_bitmap, first_clear}
use cs.Nufs.Pages.Alloc.{LeastClear, first_clear-LeastClear}

-- An inode as `alloc_inode` leaves it: a plain file with nothing in it and no links.
pub record IsBlank (d : Disk) (node : ℕ) : Type 0 where
  pub no_refs : get32 d (refs node) ≡ 0
  pub file_mode : get32 d (mode node) ≡ 0o100644
  pub no_size : get32 d (size_of node) ≡ 0
  pub no_first : get32 d (dptr node 0) ≡ 0
  pub no_second : get32 d (dptr node 1) ≡ 0
  pub no_iptr : get32 d (iptr node) ≡ 0

-- Outside the inode bitmap and outside the inode.
abbrev pub Elsewhere : ℕ → ℕ → Type 0
Elsewhere node x = ((x < 32) ⊎ (64 ≤ x)) × ((x < node) ⊎ (node + inode_size ≤ x))

abbrev pub Created : Disk → Option ℕ × Disk → Type 0
Created d (none, d') = ((q : ℕ) → q < inode_count → bitmap_get d get_inode_bitmap q ≢ 0) × (d' ≡ d)
Created d (some ii, d') =
    (ii < inode_count)
    × (bitmap_get d get_inode_bitmap ii ≡ 0)
    × ((q : ℕ) → q < ii → bitmap_get d get_inode_bitmap q ≢ 0)
    × ((q : ℕ)
        → q < inode_count
        → bitmap_get d' get_inode_bitmap q
          ≡ (if q == ii then 1 else bitmap_get d get_inode_bitmap q))
    × IsBlank d' (get_inode ii)
    × ((x : ℕ) → Elsewhere (get_inode ii) x → d' x ≡ d x)
    × IsBytes d'

-- A bit of the inode bitmap lies before all inodes.
pub inode_bit :
    (d d' : Disk) (q : ℕ)
    → q < inode_count
    → ((x : ℕ) → 32 ≤ x → x < 64 → d' x ≡ d x)
    → bitmap_get d' get_inode_bitmap q ≡ bitmap_get d get_inode_bitmap q
inode_bit d d' q u same =
    bitmap_get_congr d d' get_inode_bitmap q
      (same (get_inode_bitmap + q / 8) (omega arith) (omega arith))

one : to_bit 1 ≡ 1
unfolding to_bit
one = refl

-- Over an image of bytes `alloc_inode` gives the least free inode, marks it and no other, and leaves
-- it blank; every byte that is neither in the inode bitmap nor in that inode stays. It gives none,
-- and changes nothing, only when all 256 inodes are in use.
pub alloc_inode-Created : (d : Disk) → IsBytes d → Created d (alloc_inode d)
unfolding alloc_inode
alloc_inode-Created d b =
    go (first_clear inode_count get_inode_bitmap 0 d)
      (first_clear-LeastClear inode_count get_inode_bitmap 0 inode_count d (omega arith))
  where
    go :
        (o : Option ℕ)
        → LeastClear d get_inode_bitmap 0 inode_count o
        → Created d (elim o [
          | none ↦ (none, d)
          | some ii ↦
              let cleared = zero_fill d (get_inode ii) inode_size in
              (
                some ii,
                bitmap_set (put32 cleared (mode (get_inode ii)) 0o100644) get_inode_bitmap ii 1,
              )
        ])
    go none h = (λ q u. h q (omega arith) u, refl)
    go (some ii) (l, u, z, least) =
        let node = get_inode ii in
        let d1 = zero_fill d node inode_size in
        let d2 = put32 d1 (mode node) 0o100644 in
        let d3 = bitmap_set d2 get_inode_bitmap ii 1 in
        let b2 : IsBytes d2 =
          put32-IsBytes d1 (mode node) 0o100644 (zero_fill-IsBytes d node inode_size b) in
        let out : (x : ℕ) → (x < node) ⊎ (node + inode_size ≤ x) → d2 x ≡ d x = λ x h.
          put32-outside d1 (mode node) 0o100644 x (omega arith)
          ∙ zero_fill-outside d node inode_size x h in
        let word : (a : ℕ) → node ≤ a → get32 d3 a ≡ get32 d2 a = λ a lo.
          get32_congr d2 d3 a
            (λ x p q. bitmap_set-outside d2 get_inode_bitmap ii 1 x (omega arith)) in
        let blank : (a : ℕ)
            → node ≤ a
            → a + 4 ≤ node + inode_size
            → (a + 4 ≤ mode node) ⊎ (mode node + 4 ≤ a)
            → get32 d3 a ≡ 0 =
          λ a lo hi ne.
            word a lo
            ∙ get32-put32_ne d1 (mode node) 0o100644 a ne
            ∙ get32-zero_fill d node inode_size a lo hi in
        (
          u,
          z,
          λ q lt. least q (omega arith) lt,
          λ q lt.
              bitmap_get-set d2 get_inode_bitmap ii 1 q b2
              ∙ ap₂ (λ m n. if q == ii then m else n) one
                  (inode_bit d d2 q lt (λ x lo hi. out x (omega arith))),
          record {
            no_refs = blank (refs node) (omega arith) (omega arith) (omega arith);
            file_mode =
                word (mode node) (omega arith) ∙ get32-put32 d1 (mode node) 0o100644 (omega arith);
            no_size = blank (size_of node) (omega arith) (omega arith) (omega arith);
            no_first = blank (dptr node 0) (omega arith) (omega arith) (omega arith);
            no_second = blank (dptr node 1) (omega arith) (omega arith) (omega arith);
            no_iptr = blank (iptr node) (omega arith) (omega arith) (omega arith);
          },
          λ x (e1, e2). bitmap_set-outside d2 get_inode_bitmap ii 1 x (omega arith) ∙ out x e2,
          bitmap_set-IsBytes d2 get_inode_bitmap ii 1 b2,
        )
