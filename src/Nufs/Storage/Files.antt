-- ===== src/Nufs/Storage/Files.antt =====
-- `storage_link`, `storage_read`, and where the result of `storage_truncate` is not set.
use cs.Base.{
  ℕ, ◌+◌, ◌%◌, ◌^◌, ◌<◌, ◌≡◌, ◌≢◌, refl, ◌∙◌, ap, [], ◌∷◌, true, false, none, arith, pos, no_entry,
  ltb, leb, lt→ltb, lt→not_leb, length,
}
use cs.Base.{ret, fault, uninitialised, Succeeds}
use cs.Nufs.Directory.{directory_lookup, directory_put, find_name, start_of}
use cs.Nufs.Directory.Names.{IsName}
use cs.Nufs.Directory.Put.{IsDirectory, directory_put_lem, directory_lookup-result_of}
use cs.Nufs.Inode.{get_inode, inode_count, refs, size_of}
use cs.Nufs.Memory.{Disk, get32}
use cs.Nufs.Slist.{Text}
use cs.Nufs.Slist.Split.{Without}
use cs.Nufs.Storage.{tree_lookup, resize, storage_truncate, storage_write, storage_link, link_to}
use cs.Nufs.Storage.Lookup.{IsReady, tree_lookup-name, tree_lookup-root}

-- A new name in the root for a file that exists, in range, where the C library takes the path apart
-- into "/" and the name: `storage_link` returns 0, the name stands for the inode of the file, every
-- other name of the root stands for what it did, and the inode has one reference more.
pub storage_link-shares :
    (dirname basename : Text → Text) {d : Disk} (from : Text) (c : ℕ) (s : Text) (inum : ℕ)
    → IsReady d
    → IsDirectory d (get_inode 0)
    → IsName (c ∷ s)
    → Without b'/' (c ∷ s)
    → dirname (b'/' ∷ c ∷ s) ≡ b'/' ∷ []
    → basename (b'/' ∷ c ∷ s) ≡ c ∷ s
    → inum < inode_count
    → tree_lookup d from ≡ ret (pos inum)
    → find_name d (start_of d (get_inode 0)) (c ∷ s) ≡ none
    → Succeeds (storage_link dirname basename d from (b'/' ∷ c ∷ s)) λ (rv, d').
      (rv ≡ pos 0)
      × (directory_lookup d' (get_inode 0) (c ∷ s) ≡ pos inum)
      × ((t : Text)
          → IsName t
          → t ≢ c ∷ s
          → directory_lookup d' (get_inode 0) t ≡ directory_lookup d (get_inode 0) t)
      × (get32 d' (refs (get_inode inum)) ≡ (get32 d (refs (get_inode inum)) + 1) % 2 ^ 32)
unfolding storage_link link_to
storage_link-shares dirname basename {d} from c s inum ready is_dir valid w dir base lt source
      absent =
    let name : Text = c ∷ s in
    let missing : directory_lookup d (get_inode 0) name ≡ no_entry =
      directory_lookup-result_of d (get_inode 0) name (start_of d (get_inode 0)) none refl absent in
    let second : tree_lookup d (b'/' ∷ name) ≡ ret no_entry =
      tree_lookup-name c s w (omega (arith, valid.short)) ready ∙ ap ret missing in
    (
      directory_put d (get_inode 0) name inum,
      rw (source, second, dir, tree_lookup-root ready, base),
      directory_put_lem name inum ready.spare is_dir valid lt absent ready.empty,
    )

-- Setting the size that a file has leaves the result of `storage_truncate` unset; so does a write
-- that ends where the file ends, whatever it writes.
pub storage_write-same :
    (d : Disk) (path buf : Text) (inum offset : ℕ)
    → tree_lookup d path ≡ ret (pos inum)
    → get32 d (size_of (get_inode inum)) ≡ offset + length buf
    → offset + length buf < 2 ^ 31
    → (storage_truncate d path (offset + length buf) ≡ fault uninitialised)
      × (storage_write d path buf offset ≡ fault uninitialised)
unfolding storage_truncate storage_write resize
storage_write-same d path buf inum offset found same small =
    let size = offset + length buf in
    let held : ltb size (2 ^ 31) ≡ true = lt→ltb size (2 ^ 31) small in
    let not_less : ltb size size ≡ false = ground arith in
    let not_neg : leb (2 ^ 31) size ≡ false = lt→not_leb (2 ^ 31) size small in
    let unset : storage_truncate d path size ≡ fault uninitialised =
      rw (found, held, same, not_less, not_neg) in
    (unset, rw unset)
