-- ===== src/Nufs/Storage/Lookup.antt =====
-- `tree_lookup`: the walk along the names of a path.
use cs.Base.{
  ◌^◌, ◌<◌, lt→ltb, ◌++◌, ℕ, suc, ◌+◌, ◌≡◌, refl, ◌∙◌, ap, List, [], ◌∷◌, some, arith, ℤ, pos,
  negsuc, length, get_or, drop,
}
use cs.Base.{◌^◌, ◌<◌, lt→ltb, drop-length, take-length, ret, ◌>>=◌, get_or_beyond}
use cs.Nufs.Directory.{find_name, find_empty, name_eq, start_of, inum_at, directory_lookup, to_int}
use cs.Nufs.Directory.Put.{directory_lookup-result_of}
use cs.Nufs.Inode.{get_inode}
use cs.Nufs.Memory.{Disk, get32}
use cs.Nufs.Slist.{Text, s_split, s_split_fuel, part_length, s_cons}
use cs.Nufs.Slist.Split.{Without}
use cs.Nufs.Storage.{walk, tree_lookup}

-- An entry without a name is what `tree_lookup` finds for the empty part before the first slash.
find_name-nil : (d : Disk) (start : ℕ) → find_name d start [] ≡ find_empty d start
unfolding find_name find_empty name_eq
find_name-nil d start = refl

s_split-slash :
    (path : Text) → s_split (b'/' ∷ path) b'/' ≡ (s_split path b'/' >>= λ rest. ret ([] ∷ rest))
unfolding s_split s_split_fuel part_length s_cons
s_split-slash path =
    let e : length (b'/' ∷ path) + 1 ≡ suc (length path + 1) = omega arith in
    ap (λ f. s_split_fuel f (b'/' ∷ path) b'/') e

part_length-Without : (p : Text) (delim : ℕ) → Without delim p → part_length p delim ≡ length p
unfolding part_length
part_length-Without [] delim w = refl
part_length-Without (c ∷ s) delim w = rw w.0 (ap suc (part_length-Without s delim w.1))

split_name :
    (f c : ℕ) (s : Text)
    → Without b'/' (c ∷ s)
    → length (c ∷ s) < 2 ^ 31
    → s_split_fuel (suc (suc f)) (c ∷ s) b'/' ≡ ret ((c ∷ s) ∷ [])
unfolding s_split_fuel s_cons
split_name f c s w small =
    let stop : get_or (c ∷ s) (length (c ∷ s)) 0 ≡ 0 =
      get_or_beyond (c ∷ s) (length (c ∷ s)) (omega arith) in
    let rest : drop (length (c ∷ s) + 0) (c ∷ s) ≡ [] =
      drop-length (c ∷ s) (length (c ∷ s) + 0) (omega arith) in
    rw (
      part_length-Without (c ∷ s) b'/' w,
      lt→ltb (length (c ∷ s)) (2 ^ 31) small,
      stop,
      rest,
      take-length (c ∷ s),
    )

-- A name of one byte at least, without a slash, is one part.
pub s_split-name :
    (c : ℕ) (s : Text)
    → Without b'/' (c ∷ s)
    → length (c ∷ s) < 2 ^ 31
    → s_split (c ∷ s) b'/' ≡ ret ((c ∷ s) ∷ [])
unfolding s_split s_split_fuel s_cons
s_split-name c s w small =
    let e : length (c ∷ s) + 1 ≡ suc (suc (length s)) = omega arith in
    ap (λ f. s_split_fuel f (c ∷ s) b'/') e ∙ split_name (length s) c s w small

-- The root directory is inode 0; it has an entry without a name, which has the number 0.
pub record IsReady (d : Disk) : Type 0 where
  pub spare : ℕ
  pub empty : find_empty d (start_of d (get_inode 0)) ≡ some spare
  pub unset : get32 d (inum_at (start_of d (get_inode 0)) spare) ≡ 0

pub walk-root : {d : Disk} (names : List Text) → IsReady d → walk d ([] ∷ names) 0 ≡ walk d names 0
unfolding walk to_int
walk-root {d} names ready =
    let start = start_of d (get_inode 0) in
    let found : directory_lookup d (get_inode 0) [] ≡ pos 0 =
      directory_lookup-result_of d (get_inode 0) [] start (some ready.spare) refl
        (find_name-nil d start ∙ ready.empty)
      ∙ ap to_int ready.unset in
    rw (walk, found)

-- The inodes that the names lead to, each found in the directory of the one before it.
pub data Chain (d : Disk) : ℕ → List Text → ℕ → Type 0 where
  here : {inum : ℕ} → Chain d inum [] inum
  down :
      {inum next last : ℕ} {name : Text} {names : List Text}
      → directory_lookup d (get_inode inum) name ≡ pos next
      → Chain d next names last
      → Chain d inum (name ∷ names) last

-- The result for the names is that of the last inode when all are found, and else the negative result for the
-- first name that is not.
pub data Result (d : Disk) (names : List Text) : ℤ → Type 0 where
  found : (inum : ℕ) → Chain d 0 names inum → Result d names (pos inum)
  missing :
      (front : List Text) (name : Text) (behind : List Text) (inum e : ℕ)
      → names ≡ front ++ (name ∷ behind)
      → Chain d 0 front inum
      → directory_lookup d (get_inode inum) name ≡ negsuc e
      → Result d names (negsuc e)

s_split-root : s_split (b'/' ∷ []) b'/' ≡ ret ([] ∷ [])
unfolding s_split s_split_fuel s_cons part_length
s_split-root = refl

pub tree_lookup-root : {d : Disk} → IsReady d → tree_lookup d (b'/' ∷ []) ≡ ret (pos 0)
unfolding tree_lookup walk
tree_lookup-root ready = rw s_split-root (ap ret (walk-root [] ready))

-- A name in the root.
pub tree_lookup-name :
    {d : Disk} (c : ℕ) (s : Text)
    → Without b'/' (c ∷ s)
    → length (c ∷ s) < 2 ^ 31
    → IsReady d
    → tree_lookup d (b'/' ∷ c ∷ s) ≡ ret (directory_lookup d (get_inode 0) (c ∷ s))
unfolding tree_lookup walk
tree_lookup-name {d} c s w small ready =
    rw (s_split-slash (c ∷ s), s_split-name c s w small)
      (ap ret (walk-root ((c ∷ s) ∷ []) ready ∙ end (directory_lookup d (get_inode 0) (c ∷ s))))
  where
    end : (r : ℤ) → (elim r [ pos inum ↦ walk d [] inum | negsuc e ↦ negsuc e ]) ≡ r
    end (pos n) = refl
    end (negsuc n) = refl
