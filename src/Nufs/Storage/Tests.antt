-- ===== src/Nufs/Storage/Tests.antt =====
-- A small image with one file on which the theorems are used.
use cs.Base.{◌+◌, ◌%◌, ◌^◌, ◌≡◌, ◌≢◌, refl, [], none, arith, pos, ltb, ◌==◌, if◌then◌else◌, drop}
use native.Mathlib.Nat.{le_refl}
use cs.Base.{codes, ret, Succeeds}
use cs.Nufs.Directory.{
  to_int, directory_lookup, find_name, find_empty, find_first, name_eq, start_of,
}
use cs.Nufs.Directory.Names.{IsName}
use cs.Nufs.Directory.Put.{IsDirectory}
use cs.Nufs.Inode.{get_inode, refs, inode_get_pnum}
use cs.Nufs.Memory.{Disk, get32}
use cs.Nufs.Slist.{Text}
use cs.Nufs.Storage.{tree_lookup, storage_link}
use cs.Nufs.Storage.Lookup.{IsReady, tree_lookup-name}
use cs.Nufs.Storage.Files.{storage_link-shares}

-- Inode 0 is the root, in page 2, with the file "a", inode 1, of 5 bytes, as its first entry.
abbrev disk : Disk
disk x =
    if x == 76
    then 2
    else if x == 96
    then 5
    else if x == 88
    then 1
    else if x == 8192
    then b'a'
    else if x == 8252
    then 1
    else if x == 4096 + 3
    then 7
    else 0

disk-IsReady : IsReady disk
unfolding find_empty find_first start_of inode_get_pnum get32
disk-IsReady = record { spare = 1; empty = refl; unset = refl }

disk-IsDirectory : IsDirectory disk (get_inode 0)
unfolding start_of inode_get_pnum get32
disk-IsDirectory = record { is_inode = (0, omega arith, refl); placed = le_refl 8192 }

-- The library's functions at the one path that is linked.
abbrev dirname_of : Text → Text
dirname_of path = codes "/"

abbrev basename_of : Text → Text
basename_of path = drop 1 path

a-lookup : tree_lookup disk (codes "/a") ≡ ret (pos 1)
unfolding directory_lookup find_name find_first name_eq start_of inode_get_pnum get32 to_int
a-lookup = tree_lookup-name b'a' [] (refl, tt) (omega arith) disk-IsReady

b-absent : find_name disk (start_of disk (get_inode 0)) (codes "b") ≡ none
unfolding find_name find_first name_eq start_of inode_get_pnum get32
b-absent = refl

storage_link-shares_example :
    Succeeds (storage_link dirname_of basename_of disk (codes "/a") (codes "/b")) λ (rv, d').
      (rv ≡ pos 0)
      × (directory_lookup d' (get_inode 0) (codes "b") ≡ pos 1)
      × ((t : Text)
          → IsName t
          → t ≢ codes "b"
          → directory_lookup d' (get_inode 0) t ≡ directory_lookup disk (get_inode 0) t)
      × (get32 d' (refs (get_inode 1)) ≡ (get32 disk (refs (get_inode 1)) + 1) % 2 ^ 32)
storage_link-shares_example =
    storage_link-shares dirname_of basename_of (codes "/a") b'b' [] 1 disk-IsReady disk-IsDirectory
      (omega arith) (refl, tt) refl refl (omega arith) a-lookup b-absent

-- Every byte of the root's page is set.
abbrev crowded : Disk
crowded x = if x == 76 then 2 else if ltb x 8192 then 0 else 1
