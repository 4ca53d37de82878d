-- ===== src/Nufs/Directory/Put.antt =====
-- `directory_put`: the entry that it writes, and what `directory_lookup` sees afterwards.
use cs.Base.{
  ℕ, ◌+◌, ◌%◌, ◌^◌, ◌≤◌, ◌<◌, ◌≡◌, ◌≢◌, refl, sym, ◌∙◌, ap, subst, false, Option, none, some, ◌⊎◌,
  inl, inr, arith, ℤ, pos, no_entry, ◌==◌, lt→ltb, le→not_ltb, lt→not_leb, ==_iff, dec_lt,
  ℕ_discrete, length,
}
use cs.Nufs.Directory.{
  ent_count, entry, inum_at, start_of, inode_at, to_int, name_eq, find_name, find_empty,
  directory_lookup, put_name, put_entry, directory_put,
}
use cs.Nufs.Directory.Names.{
  IsName, text_eq, text_eq_refl, text_eq-ne, name_eq-put_name, name_eq_congr, name_eq-empty,
  find_first_congr, find_first-only, find_first-FoundFirst, FoundFirst,
}
use cs.Nufs.Inode.{get_inode, inode_count, refs, dptr, inode_get_pnum}
use cs.Nufs.Memory.{Disk, get32}
use cs.Nufs.Memory.Laws.{put32-outside, get32-put32, get32-put32_ne, get32_congr}
use cs.Nufs.Pages.{pages_get_page}
use cs.Nufs.Slist.{Text}

-- A directory: an inode whose first page is none of the two that hold the bitmaps and the inodes.
pub record IsDirectory (d : Disk) (dir : ℕ) : Type 0 where
  pub is_inode : (k : ℕ) × (k < inode_count) × (dir ≡ get_inode k)
  pub placed : 8192 ≤ start_of d dir

pub to_int-pos : (n : ℕ) → n < 2 ^ 31 → to_int n ≡ pos n
unfolding to_int
to_int-pos n h = rw (lt→ltb n (2 ^ 31) h)

-- What `directory_lookup` makes of the entry that it finds.
abbrev pub result_of : Disk → ℕ → Option ℕ → ℤ
result_of d start o = elim o [ none ↦ no_entry | some j ↦ to_int (get32 d (inum_at start j)) ]

pub directory_lookup-result_of :
    (d : Disk) (dir : ℕ) (s : Text) (start : ℕ) (o : Option ℕ)
    → start_of d dir ≡ start
    → find_name d start s ≡ o
    → directory_lookup d dir s ≡ result_of d start o
unfolding directory_lookup
directory_lookup-result_of d dir s start o e f =
    ap (λ st. result_of d st (find_name d st s)) e ∙ ap (result_of d start) f

-- `directory_put` with an empty entry and no entry of that name.
directory_put-put_entry :
    (d : Disk) (dir : ℕ) (name : Text) (inum i : ℕ)
    → directory_lookup d dir name ≡ no_entry
    → length name ≤ 60
    → find_empty d (start_of d dir) ≡ some i
    → directory_put d dir name inum ≡ (pos 0, put_entry d (start_of d dir) i name inum)
unfolding directory_put
directory_put-put_entry d dir name inum i e h f = rw (e, le→not_ltb 60 (length name) h, f)

put_name-outside :
    (d : Disk) (a : ℕ) (name : Text) (x : ℕ) → (x < a) ⊎ (a + 60 ≤ x) → put_name d a name x ≡ d x
unfolding put_name
put_name-outside d a name x h = ground arith

inode_at-get_inode : (n : ℕ) → n < inode_count → inode_at n ≡ get_inode n
unfolding inode_at
inode_at-get_inode n h = rw (lt→not_leb (2 ^ 31) n (omega arith))

-- The image after `put_entry` of an inode in range, at entry `i` of a page behind the inodes.
module _ (d : Disk) (start i : ℕ) (name : Text) (inum : ℕ) (lt : inum < inode_count)
    (placed : 8192 ≤ start) where
  abbrev wrote : Disk
  wrote = put_entry d start i name inum

  abbrev at_refs : ℕ
  at_refs = refs (get_inode inum)

  put_entry-outside :
      (x : ℕ)
      → (x < entry start i) ⊎ (entry start i + 64 ≤ x)
      → (x < at_refs) ⊎ (at_refs + 4 ≤ x)
      → wrote x ≡ d x
  unfolding put_entry
  put_entry-outside x h k = rw (inode_at-get_inode inum lt) (
      put32-outside _ at_refs _ x k
      ∙ put32-outside (put_name d (entry start i) name) (inum_at start i) inum x (omega arith)
      ∙ put_name-outside d (entry start i) name x (omega arith))

  put_entry-name :
      (x : ℕ)
      → entry start i ≤ x
      → x < entry start i + 60
      → wrote x ≡ put_name d (entry start i) name x
  unfolding put_entry
  put_entry-name x h k = rw (inode_at-get_inode inum lt) (
      put32-outside _ at_refs _ x (inr (omega arith))
      ∙ put32-outside (put_name d (entry start i) name) (inum_at start i) inum x
          (inl (omega arith)))

  get32-put_entry_inum : get32 wrote (inum_at start i) ≡ inum
  unfolding put_entry
  get32-put_entry_inum = rw (inode_at-get_inode inum lt) (
      get32-put32_ne _ at_refs _ (inum_at start i) (inr (omega arith))
      ∙ get32-put32 (put_name d (entry start i) name) (inum_at start i) inum (omega arith))

  get32-put_entry_refs : get32 wrote at_refs ≡ (get32 d at_refs + 1) % 2 ^ 32
  unfolding put_entry
  get32-put_entry_refs = rw (inode_at-get_inode inum lt) (
      get32-put32 _ at_refs _ (omega arith)
      ∙ ap (λ n. (n + 1) % 2 ^ 32)
          (get32-put32_ne (put_name d (entry start i) name) (inum_at start i) inum at_refs
              (inl (omega arith))
            ∙ get32_congr d (put_name d (entry start i) name) at_refs
                (λ x l u. put_name-outside d (entry start i) name x (inl (omega arith)))))

  -- The other entries are as they were.
  other_name :
      (j : ℕ) (s : Text)
      → j ≢ i
      → length s < 60
      → name_eq wrote (entry start j) s ≡ name_eq d (entry start j) s
  other_name j s ne short =
      name_eq_congr d wrote (entry start j) s
        (λ x l u. put_entry-outside x (omega arith) (inr (omega arith)))

  other_inum : (j : ℕ) → j ≢ i → get32 wrote (inum_at start j) ≡ get32 d (inum_at start j)
  other_inum j ne =
      get32_congr d wrote (inum_at start j)
        (λ x l u. put_entry-outside x (omega arith) (inr (omega arith)))

  this_name : (s : Text) → IsName name → IsName s → name_eq wrote (entry start i) s ≡ text_eq name s
  this_name s h hs =
      name_eq_congr (put_name d (entry start i) name) wrote (entry start i) s
        (λ x l u. put_entry-name x (omega arith) (omega (arith, hs.short)))
      ∙ name_eq-put_name d (entry start i) name s h hs.clean

module _ {d : Disk} {dir : ℕ} (name : Text) (inum i : ℕ) (is_dir : IsDirectory d dir)
    (valid : IsName name) (lt : inum < inode_count)
    (absent : find_name d (start_of d dir) name ≡ none)
    (free : find_empty d (start_of d dir) ≡ some i) where
  abbrev start : ℕ
  start = start_of d dir

  abbrev after : Disk
  after = put_entry d start i name inum

  empty_entry : (i < ent_count) × (d (entry start i) ≡ 0)
  unfolding find_empty
  empty_entry =
      let f = find_first-FoundFirst ent_count 0 (λ j. d (entry start j) == 0) in
      let (l, u, t) = subst (FoundFirst ent_count 0 (λ j. d (entry start j) == 0)) free f in
      (omega arith, (==_iff _ 0).0 t)

  no_name : (j : ℕ) → j < ent_count → name_eq d (entry start j) name ≡ false
  unfolding find_name
  no_name j u =
      subst (FoundFirst ent_count 0 (λ j. name_eq d (entry start j) name)) absent
        (find_first-FoundFirst ent_count 0 (λ j. name_eq d (entry start j) name)) j (omega arith) u

  start-after : start_of after dir ≡ start
  unfolding start_of inode_get_pnum
  start-after =
      let (k, lt_k, e) = is_dir.is_inode in
      ap pages_get_page (
        get32_congr d after (dptr dir 0) (λ x l u.
          put_entry-outside d start i name inum lt is_dir.placed x
            (inl (omega (arith, is_dir.placed)))
            (elim (dec_lt k inum) [ yes p ↦ inl (omega arith) | no p ↦ inr (omega arith) ])))

  find_name-new : find_name after start name ≡ some i
  unfolding find_name
  find_name-new =
      find_first-only ent_count 0 i _ (omega arith) (omega (arith, empty_entry.0))
        (this_name d start i name inum lt is_dir.placed name valid valid ∙ text_eq_refl name)
        (λ j l u ne.
          other_name d start i name inum lt is_dir.placed j name ne valid.short
          ∙ no_name j (omega arith))

  find_name-other : (s : Text) → IsName s → s ≢ name → find_name after start s ≡ find_name d start s
  unfolding find_name
  find_name-other s hs ne = find_first_congr ent_count 0 _ _ (λ j l u. elim (ℕ_discrete j i) [
    | yes e ↦ rw e (
        this_name d start i name inum lt is_dir.placed s valid hs
        ∙ text_eq-ne name s (λ e'. ne (sym e'))
        ∙ sym (name_eq-empty d (entry start i) s empty_entry.1 hs))
    | no other ↦ other_name d start i name inum lt is_dir.placed j s other hs.short
  ])

  find_name-FoundFirst :
      (s : Text) → FoundFirst ent_count 0 (λ j. name_eq d (entry start j) s) (find_name d start s)
  unfolding find_name
  find_name-FoundFirst s = find_first-FoundFirst ent_count 0 (λ j. name_eq d (entry start j) s)

  -- An entry that is found is not the empty one.
  same_entry :
      (s : Text)
      → IsName s
      → (o : Option ℕ) → FoundFirst ent_count 0 (λ j. name_eq d (entry start j) s) o
      → (elim o [ none ↦ no_entry | some j ↦ to_int (get32 after (inum_at start j)) ])
        ≡ (elim o [ none ↦ no_entry | some j ↦ to_int (get32 d (inum_at start j)) ])
  same_entry s hs none h = refl
  same_entry s hs (some j) (l, u, t) =
      let ne : j ≢ i = λ e.
        let off : name_eq d (entry start j) s ≡ false =
          rw e (name_eq-empty d (entry start i) s empty_entry.1 hs) in
        cc in
      ap to_int (other_inum d start i name inum lt is_dir.placed j ne)

  -- Putting a name that is not there, of 1 to 59 bytes, for an inode in range, into a directory with
  -- an empty entry: 0 is returned, the name is found with its inode, every other name is found as
  -- before, and the inode has one reference more.
  pub directory_put_lem :
      let (rv, d') = directory_put d dir name inum in
      (rv ≡ pos 0)
      × (directory_lookup d' dir name ≡ pos inum)
      × ((s : Text) → IsName s → s ≢ name → directory_lookup d' dir s ≡ directory_lookup d dir s)
      × (get32 d' (refs (get_inode inum)) ≡ (get32 d (refs (get_inode inum)) + 1) % 2 ^ 32)
  directory_put_lem =
      let old : directory_lookup d dir name ≡ no_entry =
        directory_lookup-result_of d dir name start none refl absent in
      let run : directory_put d dir name inum ≡ (pos 0, after) =
        directory_put-put_entry d dir name inum i old (omega (arith, valid.short)) free in
      rw run (
        refl,
        directory_lookup-result_of after dir name start (some i) start-after find_name-new
            ∙ ap to_int (get32-put_entry_inum d start i name inum lt is_dir.placed)
            ∙ to_int-pos inum (omega arith),
        λ s hs ne.
            directory_lookup-result_of after dir s start (find_name d start s) start-after
              (find_name-other s hs ne)
            ∙ same_entry s hs (find_name d start s) (find_name-FoundFirst s)
            ∙ sym (directory_lookup-result_of d dir s start (find_name d start s) refl refl),
        get32-put_entry_refs d start i name inum lt is_dir.placed,
      )
