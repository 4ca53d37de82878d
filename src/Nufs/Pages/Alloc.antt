-- ===== src/Nufs/Pages/Alloc.antt =====
-- The page allocator: which page it gives, and what stays as it was.
use cs.Base.{
  ℕ, zero, suc, ◌+◌, ◌≤◌, ◌<◌, ◌≡◌, ◌≢◌, refl, ◌∙◌, Option, none, some, inl, inr, arith, ◌==◌,
  if◌then◌else◌, ==_iff, Bool-cases, ℕ_discrete,
}
use cs.Nufs.Bitmap.{bitmap_get, bitmap_set, to_bit}
use cs.Nufs.Bitmap.Bits.{
  bitmap_get-set, bitmap_get-set_self, bitmap_get-set_ne, bitmap_set-IsBytes, bitmap_set-outside,
}
use cs.Nufs.Memory.{Disk, IsBytes}
use cs.Nufs.Pages.{reserve, page_count, first_clear, alloc_page, free_page, get_pages_bitmap}

-- A page is taken when its bit reads non-zero.
abbrev pub Taken : Disk → ℕ → Type 0
Taken d p = bitmap_get d get_pages_bitmap p ≢ 0

-- The result of a search for a clear bit among `lo` up to `hi`: the least one, or none.
abbrev pub LeastClear : Disk → ℕ → ℕ → ℕ → Option ℕ → Type 0
LeastClear d bm lo hi none = (q : ℕ) → lo ≤ q → q < hi → bitmap_get d bm q ≢ 0
LeastClear d bm lo hi (some p) =
    (lo ≤ p)
    × (p < hi)
    × (bitmap_get d bm p ≡ 0)
    × ((q : ℕ) → lo ≤ q → q < p → bitmap_get d bm q ≢ 0)

LeastClear-step :
    (d : Disk) (bm lo hi : ℕ) (o : Option ℕ)
    → bitmap_get d bm lo ≢ 0
    → LeastClear d bm (lo + 1) hi o
    → LeastClear d bm lo hi o
LeastClear-step d bm lo hi none h r =
    λ q l u. elim (ℕ_discrete q lo) [ yes e ↦ rw e h | no ne ↦ r q (omega arith) u ]
LeastClear-step d bm lo hi (some p) h (l, u, z, r) = (
  omega arith,
  u,
  z,
  λ q l' u'. elim (ℕ_discrete q lo) [ yes e ↦ rw e h | no ne ↦ r q (omega arith) u' ],
)

pub first_clear-LeastClear :
    (n bm i hi : ℕ) (d : Disk) → i + n ≡ hi → LeastClear d bm i hi (first_clear n bm i d)
unfolding first_clear
first_clear-LeastClear zero bm i hi d e = λ q l u. absurd (omega arith)
first_clear-LeastClear (suc n) bm i hi d e = elim (Bool-cases (bitmap_get d bm i == 0)) [
  | inl clear ↦
      rw clear (omega arith, omega arith, (==_iff _ 0).0 clear, λ q l u. absurd (omega arith))
  | inr set ↦ rw set (
      LeastClear-step d bm i hi (first_clear n bm (i + 1) d) (ground arith)
        (first_clear-LeastClear n bm (i + 1) hi d (omega arith)))
]

-- What a call of `alloc_page` leaves: all pages taken and the image untouched, or the least free
-- page, which is now taken, with no other page's bit and no other byte of the image changed.
abbrev pub Allocated : Disk → Option ℕ × Disk → Type 0
Allocated d (none, d') = ((q : ℕ) → q < page_count → Taken d q) × (d' ≡ d)
Allocated d (some p, d') =
    (p < page_count)
    × (bitmap_get d get_pages_bitmap p ≡ 0)
    × ((q : ℕ) → q < p → Taken d q)
    × Taken d' p
    × ((q : ℕ) → q ≢ p → bitmap_get d' get_pages_bitmap q ≡ bitmap_get d get_pages_bitmap q)
    × ((x : ℕ) → 32 ≤ x → d' x ≡ d x)
    × IsBytes d'

one : to_bit 1 ≡ 1
unfolding to_bit
one = refl

-- Over an image of bytes `alloc_page` gives the least free page and takes it, leaving every other
-- page and all bytes behind the page bitmap as they were; it gives none, and changes nothing, only
-- when all 256 pages are taken.
pub alloc_page-Allocated : (d : Disk) → IsBytes d → Allocated d (alloc_page d)
unfolding alloc_page
alloc_page-Allocated d b =
    go (first_clear page_count get_pages_bitmap 0 d)
      (first_clear-LeastClear page_count get_pages_bitmap 0 page_count d (omega arith))
  where
    go :
        (o : Option ℕ)
        → LeastClear d get_pages_bitmap 0 page_count o
        → Allocated d
            (elim o [ none ↦ (none, d) | some i ↦ (some i, bitmap_set d get_pages_bitmap i 1) ])
    go none h = (λ q u. h q (omega arith) u, refl)
    go (some p) (l, u, z, least) = (
      u,
      z,
      λ q lt. least q (omega arith) lt,
      λ z'. omega (arith, bitmap_get-set_self d get_pages_bitmap p 1 b, one),
      λ q ne. bitmap_get-set_ne d get_pages_bitmap p 1 q b ne,
      λ x lo. bitmap_set-outside d get_pages_bitmap p 1 x (omega arith),
      bitmap_set-IsBytes d get_pages_bitmap p 1 b,
    )

-- Over an image of bytes `free_page` makes a page free, and changes the bit of no other page.
pub free_page-free :
    (d : Disk) (p q : ℕ)
    → IsBytes d
    → bitmap_get (free_page d p) get_pages_bitmap q
      ≡ (if q == p then 0 else bitmap_get d get_pages_bitmap q)
unfolding free_page to_bit
free_page-free d p q b = bitmap_get-set d get_pages_bitmap p 0 q b

-- What `pages_init` writes leaves an image of bytes in which pages 0 and 1, which hold the bitmaps
-- and the inodes, are taken, and every other page is as it was.
pub reserve-Taken :
    (d : Disk)
    → IsBytes d
    → let d' = reserve d in
      IsBytes d'
      × Taken d' 0
      × Taken d' 1
      × ((q : ℕ) → 1 < q → bitmap_get d' get_pages_bitmap q ≡ bitmap_get d get_pages_bitmap q)
unfolding reserve
reserve-Taken d b =
    let d1 = bitmap_set d 0 0 1 in
    let b1 = bitmap_set-IsBytes d 0 0 1 b in
    (
      bitmap_set-IsBytes d1 0 1 1 b1,
      λ z. omega (
        arith,
        bitmap_get-set_ne d1 0 1 1 0 b1 (omega arith),
        bitmap_get-set_self d 0 0 1 b,
        one,
      ),
      λ z. omega (arith, bitmap_get-set_self d1 0 1 1 b1, one),
      λ q h.
          bitmap_get-set_ne d1 0 1 1 q b1 (omega arith)
          ∙ bitmap_get-set_ne d 0 0 1 q b (omega arith),
    )
