-- ===== src/Nufs/Inode/Grow.antt =====
-- `grow_inode` on an inode with no page, and on one whose count of pages is too high.
use cs.Base.{
  ℕ, ◌*◌, ◌≤◌, ◌<◌, ◌≡◌, ◌≢◌, refl, true, false, Option, none, some, inr, arith, pos, minus_one,
  lt→ltb, le→not_ltb, le→leb,
}
use cs.Nufs.Inode.{
  Flow, next, return, ◌>>=◌, enough, alloc_into, dptr, iptr, grow_direct, grow_iptr, grow_inode,
  pages_owned,
}
use cs.Nufs.Inode.Owned.{owned_none, owned_one, owned_overcounts}
use cs.Nufs.Inode.Image.{IsImage}
use cs.Nufs.Memory.{Disk, get32, put32, is_positive}
use cs.Nufs.Memory.Laws.{get32-put32, get32-put32_ne, get32_congr}
use cs.Nufs.Pages.{alloc_page}
use cs.Nufs.Pages.Alloc.{Allocated, alloc_page-Allocated}

-- Nothing is done when the pages that are counted suffice.
grow_direct-enough :
    (d : Disk) (node size i : ℕ)
    → size ≤ pages_owned d node * 4096
    → grow_direct node size i d ≡ return (pos 0) d
unfolding grow_direct enough
grow_direct-enough d node size i h =
    rw (le→not_ltb (pages_owned d node * 4096) size h, le→leb size (pages_owned d node * 4096) h)

pub grow_inode-enough :
    (d : Disk) (node size : ℕ)
    → size ≤ 1026 * 4096
    → size ≤ pages_owned d node * 4096
    → grow_inode node size d ≡ return (pos 0) d
unfolding grow_inode
grow_inode-enough d node size small h =
    rw (le→not_ltb (1026 * 4096) size small, grow_direct-enough d node size 0 h)

-- An inode that has both direct pages and no indirect page asks for a third page: when the first
-- word of the page bitmap is positive as an `int`, `grow_inode` reports success and changes nothing,
-- so that the third page of the file has no entry.
pub grow_inode-overcounts :
    (d : Disk) (node size : ℕ)
    → is_positive (get32 d (dptr node 0)) ≡ true
    → is_positive (get32 d (dptr node 1)) ≡ true
    → get32 d (iptr node) ≡ 0
    → is_positive (get32 d 0) ≡ true
    → 2 * 4096 < size
    → size ≤ 3 * 4096
    → grow_inode node size d ≡ return (pos 0) d
grow_inode-overcounts d node size h k e w lo hi =
    grow_inode-enough d node size (omega arith) (omega (arith, owned_overcounts d node h k e w))

-- What is left of a first page: the allocator's image with the page in the first direct pointer.
abbrev pub first_page : ℕ → Option ℕ × Disk → Flow
first_page node (none, d') = return minus_one d'
first_page node (some p, d') = return (pos 0) (put32 d' (dptr node 0) p)

module _ {d : Disk} (node size : ℕ) (v : IsImage d) (h : 32 ≤ node)
    (first : is_positive (get32 d (dptr node 0)) ≡ false)
    (second : is_positive (get32 d (dptr node 1)) ≡ false) (pos_size : 0 < size)
    (one_page : size ≤ 4096) where
  words_kept :
      {d' : Disk} (a : ℕ) → 32 ≤ a → ((x : ℕ) → 32 ≤ x → d' x ≡ d x) → get32 d' a ≡ get32 d a
  words_kept {d'} a lo same = get32_congr d d' a (λ x l u. same x (omega arith))

  -- The first round ends the function.
  first_round : grow_direct node size 0 d ≡ first_page node (alloc_page d)
  unfolding grow_direct alloc_into enough
  first_round =
      rw (owned_none d node first, lt→ltb (0 * 4096) size (omega arith), first)
        (go (alloc_page d) (alloc_page-Allocated d v.bytes))
    where
      go :
          (r : Option ℕ × Disk)
          → Allocated d r
          → (elim r.0 [ none ↦ return minus_one r.1 | some p ↦ next (put32 r.1 (dptr node 0) p) ])
              >>= enough node size
            ≡ first_page node r
      go (none, d') a = refl
      go (some p, d') (lt, free, least, taken, others, beyond, bytes) =
          let d'' = put32 d' (dptr node 0) p in
          let fresh : p ≢ 0 = λ e. v.reserved (rw e at free) in
          let p_read : is_positive (get32 d'' (dptr node 0)) ≡ true =
            rw (get32-put32 d' (dptr node 0) p (omega arith)) (ground arith) in
          let second' : is_positive (get32 d'' (dptr node 1)) ≡ false =
            rw
              (
                get32-put32_ne d' (dptr node 0) p (dptr node 1) (inr (omega arith)),
                words_kept (dptr node 1) (omega arith) beyond,
              )
              second in
          rw (owned_one d'' node p_read second', le→leb size (1 * 4096) (omega arith))

  -- Over an image with page 0 reserved, an inode with neither direct page that asks for at most one
  -- page gets the least free page in its first direct pointer, and 0 is returned; when there is no
  -- free page, -1 is returned and nothing changes.
  pub grow_inode-first_page :
      Allocated d (alloc_page d) × (grow_inode node size d ≡ first_page node (alloc_page d))
  unfolding grow_inode
  grow_inode-first_page = (
    alloc_page-Allocated d v.bytes,
    rw (le→not_ltb (1026 * 4096) size (omega arith), first_round) (stays _ (alloc_page d)),
  )
    where
      stays :
          (k : Disk → Flow) (r : Option ℕ × Disk)
          → first_page node r >>= grow_direct node size 1 >>= grow_iptr node >>= k
            ≡ first_page node r
      stays k (none, d') = refl
      stays k (some p, d') = refl
