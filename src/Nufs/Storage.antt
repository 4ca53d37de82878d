-- ===== src/Nufs/Storage.antt =====
-- hw10/starter-fshw/storage.c, and `tree_lookup` of directory.c. `dirname`, `basename` and `getuid`
-- are the C library's. Offsets and sizes are not negative; a size that no `int` holds is a fault of
-- the model, since the compiler decides what it is converted to.
pub mod Lookup
pub mod Files
mod Tests
use cs.Base.{
  zero, suc, ℕ, ◌+◌, ◌-◌, ◌*◌, ◌/◌, ◌%◌, ◌^◌, List, [], ◌∷◌, Bool, true, false, ◌&&◌, ◌||◌, Option,
  none, some, ℤ, pos, negsuc, minus_one, no_entry, already_exists, Outcome, ret, fault, assert, int,
  uninitialised, ◌>>=◌, ◌>>◌, length, get_or, ltb, leb, ◌==◌, if◌then◌else◌,
}
use cs.Nufs.Directory.{
  to_int, inode_at, directory_lookup, directory_put, directory_delete, directory_list,
  directory_init, is_found,
}
use cs.Nufs.Inode.{
  Flow, next, return, ended, get_inode, mode, size_of, pages_owned, grow_inode, shrink_inode,
  alloc_inode,
}
use cs.Nufs.Memory.{Disk, get32, put32}
use cs.Nufs.Pages.{reserve, pages_get_page}
use cs.Nufs.Slist.{Text, s_split}

-- On the bytes of the file that `pages_init` maps.
unfoldable pub storage_init : Bool → Disk → Disk
storage_init create d =
    let d' = reserve d in let (inum, d'') = directory_init d' in if create then d'' else d'

-- The loop of `tree_lookup`.
unfoldable pub walk : Disk → List Text → ℕ → ℤ
walk d [] cur_inum = pos cur_inum
walk d (base ∷ rest) cur_inum = elim (directory_lookup d (get_inode cur_inum) base) [
  | pos inum ↦ walk d rest inum
  | negsuc e ↦ negsuc e
]

unfoldable pub tree_lookup : Disk → Text → Outcome ℤ
tree_lookup d path = do
  assert (get_or path 0 0 == b'/')
  s_path ← s_split path b'/'
  ret (walk d s_path 0)

-- What `storage_stat` writes to `struct stat`.
pub record Stat : Type 0 where
  pub st_uid : ℕ
  pub st_mode : ℕ
  pub st_size : ℤ
  pub st_nlink : ℕ
  pub st_blocks : ℕ

unfoldable pub storage_stat : ℕ → Disk → Text → Outcome (ℤ × Option Stat)
storage_stat getuid d path = tree_lookup d path >>= λ r. elim r [
  | negsuc e ↦ ret (negsuc e, none)
  | pos inum ↦
      let node = get_inode inum in
      ret (
        pos 0,
        some (record {
          st_uid = getuid;
          st_mode = get32 d (mode node);
          st_size = to_int (get32 d (size_of node));
          st_nlink = 1;
          st_blocks = pages_owned d node * 4;
        }),
      )
]

-- The `n` bytes at `a`.
unfoldable pub bytes_at : Disk → ℕ → ℕ → Text
bytes_at d a zero = []
bytes_at d a (suc n) = d a ∷ bytes_at d (a + 1) n

-- `node->size` is an `int`: from 2 ^ 31 on it is negative, and no offset is below it.
unfoldable pub storage_read : Disk → Text → ℕ → ℕ → Outcome (ℤ × Text)
unfolding bytes_at
storage_read d path size offset = tree_lookup d path >>= λ r. elim r [
  | negsuc e ↦ ret (negsuc e, [])
  | pos inum ↦
      let node_size = get32 d (size_of (get_inode inum)) in
      let size' = (if leb node_size ((offset + size) % 2 ^ 64) then node_size - offset else size) in
      if leb (2 ^ 31) node_size || leb node_size offset
      then ret (pos 0, [])
      else (int size' >>= λ n. ret (pos n, bytes_at d (pages_get_page inum + offset) n))
]

-- The result of a call, where its value is used.
abbrev pub value : Flow → Outcome (ℤ × Disk)
value (next d) = fault uninitialised
value (return v d) = ret (v, d)
value (ended d) = fault uninitialised

-- `node->size > size`, `node->size < size`, or no call, which leaves `rv` unset.
unfoldable pub resize : ℕ → ℕ → Disk → Outcome (ℤ × Disk)
resize node size d =
    let node_size = get32 d (size_of node) in
    if ltb size node_size && ltb node_size (2 ^ 31)
    then value (shrink_inode node size d)
    else (if ltb node_size size || leb (2 ^ 31) node_size
        then value (grow_inode node size d)
        else fault uninitialised)

unfoldable pub storage_truncate : Disk → Text → ℕ → Outcome (ℤ × Disk)
storage_truncate d path size = do
  r ← tree_lookup d path
  elim r [
    | negsuc e ↦ ret (negsuc e, d)
    | pos inum ↦ do
      n ← int size
      (rv, d') ← resize (get_inode inum) n d
      ret (rv, put32 d' (size_of (get_inode inum)) n)
  ]

-- `memcpy(a, buf, size)`, for the bytes of `buf`.
unfoldable pub copy_to : Disk → ℕ → Text → Disk
copy_to d a buf x = if leb a x && ltb x (a + length buf) then get_or buf (x - a) 0 else d x

unfoldable pub storage_write : Disk → Text → Text → ℕ → Outcome (ℤ × Disk)
storage_write d path buf offset = do
  (trv, d') ← storage_truncate d path (offset + length buf)
  elim trv [
    | negsuc e ↦ ret (negsuc e, d')
    | pos ok ↦ tree_lookup d' path >>= λ r. elim r [
      | negsuc e ↦ ret (negsuc e, d')
      | pos inum ↦ ret (pos (length buf), copy_to d' (pages_get_page inum + offset) buf)
    ]
  ]

-- An `int` as a pattern.
abbrev pub pattern_of : ℤ → ℕ
pattern_of (pos n) = n
pattern_of (negsuc n) = 2 ^ 32 - 1 - n

unfoldable pub storage_list : Disk → Text → Outcome (List Text)
storage_list d path = do
  dir_num ← tree_lookup d path
  ret (directory_list d (inode_at (pattern_of dir_num)))

module _ (dirname basename : Text → Text) where
  -- The new inode of `storage_mknod`: `mode & 040000` is bit 14.
  unfoldable pub new_node : Disk → ℕ → ℕ × Disk
  new_node d mode =
      let (o, d') = alloc_inode d in
      if mode / 2 ^ 14 % 2 == 1
      then directory_init d
      else (elim o [ none ↦ 2 ^ 32 - 1 | some i ↦ i ], d')

  unfoldable pub storage_mknod : Disk → Text → ℕ → Outcome (ℤ × Disk)
  unfolding new_node
  storage_mknod d path mode = do
    found ← tree_lookup d path
    let (inum, d') = new_node d mode
    let create = tree_lookup d' (dirname path) >>= λ dir_num.
        ret (directory_put d' (inode_at (pattern_of dir_num)) (basename path) inum)
    elim found [
      | pos n ↦ ret (already_exists, d)
      | negsuc e ↦ if e == 1 then create else ret (already_exists, d)
    ]

  unfoldable pub storage_unlink : Disk → Text → Outcome (ℤ × Disk)
  storage_unlink d path = do
    dir_num ← tree_lookup d (dirname path)
    ret (directory_delete d (inode_at (pattern_of dir_num)) (basename path))

  -- `storage_link` behind its tests, for the inode of `from`.
  unfoldable pub link_to : Disk → Text → ℕ → Outcome (ℤ × Disk)
  link_to d to inum = tree_lookup d (dirname to) >>= λ dir_num. elim dir_num [
    | negsuc e ↦ ret (no_entry, d)
    | pos n ↦ ret (directory_put d (get_inode n) (basename to) inum)
  ]

  unfoldable pub storage_link : Disk → Text → Text → Outcome (ℤ × Disk)
  storage_link d from to = do
    first ← tree_lookup d from
    second ← tree_lookup d to
    elim first [
      | negsuc e ↦ ret (no_entry, d)
      | pos inum ↦ if is_found second then ret (minus_one, d) else link_to d to inum
    ]

  unfoldable pub storage_rename : Disk → Text → Text → Outcome (ℤ × Disk)
  unfolding storage_link storage_unlink
  storage_rename d from to = do
    (link_rv, d') ← storage_link d from to
    elim link_rv [ negsuc e ↦ ret (negsuc e, d') | pos ok ↦ storage_unlink d' from ]
