-- ===== src/Nufs/Inode/Owned.antt =====
-- `pages_owned`: what it counts, without running its 1026 rounds.
use cs.Base.{ℕ, zero, suc, ◌+◌, ◌≤◌, ◌<◌, ◌≡◌, refl, true, false, arith, if◌then◌else◌, lt→ltb}
use cs.Nufs.Inode.{inode_get_pnum, owned_from, pages_owned, dptr, iptr}
use cs.Nufs.Memory.{Disk, get32, is_positive}

-- One round.
owned_from-suc :
    (n i ans : ℕ) (d : Disk) (node : ℕ)
    → owned_from (suc n) i ans d node ≡ (
        if is_positive (inode_get_pnum d node i)
        then owned_from n (i + 1) (ans + 1) d node
        else ans)
unfolding owned_from
owned_from-suc n i ans d node = refl

owned_from-ge : (n i ans : ℕ) (d : Disk) (node : ℕ) → ans ≤ owned_from n i ans d node
owned_from-ge zero i ans d node = unfold owned_from in omega arith
owned_from-ge (suc n) i ans d node =
    rw (owned_from-suc n i ans d node) (ground (arith, owned_from-ge n (i + 1) (ans + 1) d node))

pnum_direct : (d : Disk) (node i : ℕ) → i < 2 → inode_get_pnum d node i ≡ get32 d (dptr node i)
unfolding inode_get_pnum
pnum_direct d node i h = rw (lt→ltb i 2 h)

-- The page entry that `inode_get_pnum` reads at 2 when there is no indirect page: the first word of
-- the image, which belongs to the page bitmap.
pnum_second : (d : Disk) (node : ℕ) → get32 d (iptr node) ≡ 0 → inode_get_pnum d node 2 ≡ get32 d 0
unfolding inode_get_pnum
pnum_second d node e = rw e

module _ (d : Disk) (node : ℕ) where
  pub owned_none : is_positive (get32 d (dptr node 0)) ≡ false → pages_owned d node ≡ 0
  unfolding pages_owned
  owned_none h = rw (owned_from-suc 1025 0 0 d node, pnum_direct d node 0 (omega arith), h)

  pub owned_one :
      is_positive (get32 d (dptr node 0)) ≡ true
      → is_positive (get32 d (dptr node 1)) ≡ false
      → pages_owned d node ≡ 1
  unfolding pages_owned
  owned_one h k = rw (
    owned_from-suc 1025 0 0 d node,
    pnum_direct d node 0 (omega arith),
    h,
    owned_from-suc 1024 1 1 d node,
    pnum_direct d node 1 (omega arith),
    k,
  )

  -- With both direct pages and no indirect page the count goes on in the page bitmap.
  pub owned_overcounts :
      is_positive (get32 d (dptr node 0)) ≡ true
      → is_positive (get32 d (dptr node 1)) ≡ true
      → get32 d (iptr node) ≡ 0
      → is_positive (get32 d 0) ≡ true
      → 3 ≤ pages_owned d node
  unfolding pages_owned
  owned_overcounts h k e w =
      rw
        (
          owned_from-suc 1025 0 0 d node,
          pnum_direct d node 0 (omega arith),
          h,
          owned_from-suc 1024 1 1 d node,
          pnum_direct d node 1 (omega arith),
          k,
          owned_from-suc 1023 2 2 d node,
          pnum_second d node e,
          w,
        )
        (owned_from-ge 1023 3 3 d node)
