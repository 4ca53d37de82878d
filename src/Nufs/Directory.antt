-- ===== src/Nufs/Directory.antt =====
-- hw10/starter-fshw/directory.c. A directory is one page of 64 entries: a name of 60 bytes, which
-- ends at its first NUL, and the number of an inode. A name to look for has no NUL.
pub mod Names
pub mod Put
pub mod Delete
use cs.Base.{
  ℕ, zero, suc, ◌+◌, ◌-◌, ◌*◌, ◌%◌, ◌^◌, List, [], ◌∷◌, Bool, true, false, ◌&&◌, Option, none, some,
  ℤ, pos, negsuc, minus_one, no_entry, ltb, leb, ◌==◌, if◌then◌else◌, length, get_or,
}
use cs.Nufs.Inode.{
  image, get_inode, refs, mode, alloc_inode, inode_get_pnum, grow_inode, free_inode,
}
use cs.Nufs.Memory.{Disk, get32, put8, put32}
use cs.Nufs.Pages.{pages_get_page, get_inode_base}
use cs.Nufs.Slist.{Text, s_cons}

-- `sizeof(dirent)`, which is also the number of entries that are looked at.
abbrev pub ent_count : ℕ
ent_count = 64

-- Entry `i` of the page at `start`, and its `inum`.
abbrev pub entry : ℕ → ℕ → ℕ
entry start i = start + 64 * i

abbrev pub inum_at : ℕ → ℕ → ℕ
inum_at start i = start + 64 * i + 60

unfoldable pub start_of : Disk → ℕ → ℕ
start_of d dir = pages_get_page (inode_get_pnum d dir 0)

-- `get_inode` at an `int`: -1 and -2 lie before the inodes.
unfoldable pub inode_at : ℕ → ℕ
inode_at inum =
    if leb (2 ^ 31) inum then get_inode_base + 24 * inum - 24 * 2 ^ 32 else get_inode inum

-- An `int` pattern as a result.
unfoldable pub to_int : ℕ → ℤ
to_int x = if ltb x (2 ^ 31) then pos x else negsuc (2 ^ 32 - 1 - x)

-- `strcmp(a, name) == 0`, for a string in the image and a name.
unfoldable pub name_eq : Disk → ℕ → Text → Bool
name_eq d a [] = d a == 0
name_eq d a (c ∷ s) = d a == c && name_eq d (a + 1) s

-- A loop from `i` on with `n` rounds left that leaves at the first entry which passes a test.
unfoldable pub find_first : ℕ → ℕ → (ℕ → Bool) → Option ℕ
find_first zero i test = none
find_first (suc n) i test = let rest = find_first n (i + 1) test in if test i then some i else rest

unfoldable pub find_name : Disk → ℕ → Text → Option ℕ
find_name d start name = find_first ent_count 0 (λ i. name_eq d (entry start i) name)

unfoldable pub find_empty : Disk → ℕ → Option ℕ
find_empty d start = find_first ent_count 0 (λ i. d (entry start i) == 0)

unfoldable pub directory_lookup : Disk → ℕ → Text → ℤ
directory_lookup d dir name =
    let start = start_of d dir in
    elim (find_name d start name) [ none ↦ no_entry | some i ↦ to_int (get32 d (inum_at start i)) ]

-- `strncpy(a, name, 59); a[59] = 0`
unfoldable pub put_name : Disk → ℕ → Text → Disk
put_name d a name x =
    if leb a x && ltb x (a + 60) then (if ltb x (a + 59) then get_or name (x - a) 0 else 0) else d x

-- `check > 0`
abbrev pub is_found : ℤ → Bool
is_found (pos n) = ltb 0 n
is_found (negsuc n) = false

-- The end of `directory_put`, at the entry that was found empty.
unfoldable pub put_entry : Disk → ℕ → ℕ → Text → ℕ → Disk
put_entry d start i name inum =
    let named = put32 (put_name d (entry start i) name) (inum_at start i) inum in
    put32 named (refs (inode_at inum)) ((get32 named (refs (inode_at inum)) + 1) % 2 ^ 32)

unfoldable pub directory_put : Disk → ℕ → Text → ℕ → ℤ × Disk
directory_put d dir name inum =
    let start = start_of d dir in
    if is_found (directory_lookup d dir name)
    then (minus_one, d)
    else (if ltb 60 (length name) then (minus_one, d) else elim (find_empty d start) [
      | none ↦ (minus_one, d)
      | some i ↦ (pos 0, put_entry d start i name inum)
    ])

unfoldable pub directory_delete : Disk → ℕ → Text → ℤ × Disk
directory_delete d dir name =
    let start = start_of d dir in
    elim (find_name d start name) [
      | none ↦ (no_entry, d)
      | some i ↦
          let d' = put8 d (entry start i) 0 in
          (pos 0, put32 (free_inode (get32 d' (inum_at start i)) d') (inum_at start i) 0)
    ]

-- The string in the 60 bytes at `a`, with `n` of them left.
unfoldable pub name_text : ℕ → Disk → ℕ → Text
name_text zero d a = []
name_text (suc n) d a = let rest = name_text n d (a + 1) in if d a == 0 then [] else d a ∷ rest

-- The loop of `directory_list`, which conses: the last entry comes first.
unfoldable pub list_from : ℕ → ℕ → Disk → ℕ → List Text → List Text
unfolding name_text s_cons
list_from zero i d start ys = ys
list_from (suc n) i d start ys =
    list_from n (i + 1) d start
      (if d (entry start i) == 0 then ys else s_cons (name_text 60 d (entry start i)) ys)

unfoldable pub directory_list : Disk → ℕ → List Text
directory_list d dir = list_from ent_count 0 d (start_of d dir) []

-- The `int` pattern of the new inode: `alloc_inode` may return -1, which is not tested.
unfoldable pub directory_init : Disk → ℕ × Disk
directory_init d =
    let (o, d') = alloc_inode d in
    let inum : ℕ = elim o [ none ↦ 2 ^ 32 - 1 | some i ↦ i ] in
    let rn = inode_at inum in (inum, image (grow_inode rn 4096 (put32 d' (mode rn) 0o40755)))
