-- ===== src/Nufs/Directory/Delete.antt =====
-- `directory_delete` of one of several links to an inode.
use cs.Base.{
  ℕ, zero, suc, ◌+◌, ◌-◌, ◌^◌, ◌≤◌, ◌<◌, ◌≡◌, ◌≢◌, refl, sym, ◌∙◌, ap, ap₂, subst, [], ◌∷◌, Bool,
  true, false, Option, none, some, ◌⊎◌, inl, inr, arith, pos, no_entry, Bool-cases, dec_lt,
  ℕ_discrete, length,
}
use cs.Nufs.Directory.{
  ent_count, entry, inum_at, start_of, to_int, name_eq, find_first, find_name, directory_lookup,
  directory_delete,
}
use cs.Nufs.Directory.Names.{
  Clean, IsName, name_eq_congr, name_eq-empty, find_first_congr, find_first-FoundFirst, FoundFirst,
}
use cs.Nufs.Directory.Put.{IsDirectory, result_of, directory_lookup-result_of}
use cs.Nufs.Inode.{get_inode, inode_count, refs, dptr, inode_get_pnum}
use cs.Nufs.Inode.Free.{free_inode-shared}
use cs.Nufs.Memory.{Disk, get32, put8, put32}
use cs.Nufs.Memory.Laws.{
  put8_self, put8-ne, put32-outside, get32-put32, get32-put32_ne, get32-put8_ne, get32_congr,
}
use cs.Nufs.Pages.{pages_get_page}
use cs.Nufs.Slist.{Text}

-- Two names that compare equal to the same string are the same.
name_eq-eq :
    (d : Disk) (a : ℕ) (s s' : Text)
    → Clean s
    → Clean s'
    → name_eq d a s ≡ true
    → name_eq d a s' ≡ true
    → s ≡ s'
unfolding name_eq
name_eq-eq d a [] [] cs cs' h h' = refl
name_eq-eq d a [] (c ∷ s) cs cs' h h' = let nz = cs'.0 in absurd (ground arith)
name_eq-eq d a (c ∷ s) [] cs cs' h h' = let nz = cs.0 in absurd (ground arith)
name_eq-eq d a (c ∷ s) (c' ∷ s') cs cs' h h' =
    let e : c ≡ c' = ground arith in
    let t : name_eq d (a + 1) s ≡ true = ground arith in
    let t' : name_eq d (a + 1) s' ≡ true = ground arith in
    ap₂ (λ x xs. x ∷ xs) e (name_eq-eq d (a + 1) s s' cs.1 cs'.1 t t')

find_first-none :
    (n i : ℕ) (f : ℕ → Bool) → ((j : ℕ) → i ≤ j → j < i + n → f j ≡ false) → find_first n i f ≡ none
unfolding find_first
find_first-none zero i f h = refl
find_first-none (suc n) i f h = rw (
  h i (omega arith) (omega arith),
  find_first-none n (i + 1) f (λ j l u. h j (omega arith) (omega arith)),
)

-- The image after the entry `i` is cleared and its inode has a reference less.
module _ (d : Disk) (start i inum r : ℕ) (lt : inum < inode_count) (placed : 8192 ≤ start) where
  abbrev node_refs : ℕ
  node_refs = refs (get_inode inum)

  abbrev cleared : Disk
  cleared = put32 (put32 (put8 d (entry start i) 0) node_refs (r - 1)) (inum_at start i) 0

  cleared-outside :
      (x : ℕ)
      → (x < entry start i) ⊎ (entry start i + 64 ≤ x)
      → (x < node_refs) ⊎ (node_refs + 4 ≤ x)
      → cleared x ≡ d x
  cleared-outside x h k =
      put32-outside (put32 (put8 d (entry start i) 0) node_refs (r - 1)) (inum_at start i) 0 x
        (omega arith)
      ∙ put32-outside (put8 d (entry start i) 0) node_refs (r - 1) x k
      ∙ put8-ne d (entry start i) 0 x (omega arith)

  cleared-entry : cleared (entry start i) ≡ 0
  cleared-entry =
      put32-outside (put32 (put8 d (entry start i) 0) node_refs (r - 1)) (inum_at start i) 0
        (entry start i) (inl (omega arith))
      ∙ put32-outside (put8 d (entry start i) 0) node_refs (r - 1) (entry start i)
          (inr (omega arith))
      ∙ put8_self d (entry start i) 0

  get32-cleared_refs : r < 2 ^ 32 → get32 cleared node_refs ≡ r - 1
  get32-cleared_refs h =
      get32-put32_ne (put32 (put8 d (entry start i) 0) node_refs (r - 1)) (inum_at start i) 0
        node_refs (inl (omega arith))
      ∙ get32-put32 (put8 d (entry start i) 0) node_refs (r - 1) (omega arith)

  kept_name :
      (j : ℕ) (s : Text)
      → j ≢ i
      → length s < 60
      → name_eq cleared (entry start j) s ≡ name_eq d (entry start j) s
  kept_name j s ne short =
      name_eq_congr d cleared (entry start j) s
        (λ x l u. cleared-outside x (omega arith) (inr (omega arith)))

  kept_inum : (j : ℕ) → j ≢ i → get32 cleared (inum_at start j) ≡ get32 d (inum_at start j)
  kept_inum j ne =
      get32_congr d cleared (inum_at start j)
        (λ x l u. cleared-outside x (omega arith) (inr (omega arith)))

module _ {d : Disk} {dir : ℕ} (name : Text) (inum i r : ℕ) (is_dir : IsDirectory d dir)
    (valid : IsName name) (lt : inum < inode_count)
    (found : find_name d (start_of d dir) name ≡ some i)
    (alone : (j : ℕ) → j ≢ i → name_eq d (entry (start_of d dir) j) name ≡ false)
    (named : get32 d (inum_at (start_of d dir) i) ≡ inum)
    (links : get32 d (refs (get_inode inum)) ≡ r) (several : 1 < r) (bounded : r < 2 ^ 32) where
  abbrev start : ℕ
  start = start_of d dir

  abbrev after : Disk
  after = cleared d start i inum r lt is_dir.placed

  start-after : start_of after dir ≡ start
  unfolding start_of inode_get_pnum
  start-after =
      let (k, lt_k, e) = is_dir.is_inode in
      ap pages_get_page (
        get32_congr d after (dptr dir 0) (λ x l u.
          cleared-outside d start i inum r lt is_dir.placed x (inl (omega (arith, is_dir.placed)))
            (elim (dec_lt k inum) [ yes p ↦ inl (omega arith) | no p ↦ inr (omega arith) ])))

  directory_delete-cleared : directory_delete d dir name ≡ (pos 0, after)
  unfolding directory_delete
  directory_delete-cleared =
      let d1 = put8 d (entry start i) 0 in
      let number : get32 d1 (inum_at start i) ≡ inum =
        get32-put8_ne d (entry start i) 0 (inum_at start i) (inr (omega arith)) ∙ named in
      let count : get32 d1 (refs (get_inode inum)) ≡ r =
        get32-put8_ne d (entry start i) 0 (refs (get_inode inum))
          (inl (omega (arith, is_dir.placed)))
        ∙ links in
      rw (directory_delete, found, number, free_inode-shared d1 inum r lt count several bounded)

  matched : name_eq d (entry start i) name ≡ true
  unfolding find_name
  matched =
      let (l, u, t) =
        subst (FoundFirst ent_count 0 (λ j. name_eq d (entry start j) name)) found
          (find_first-FoundFirst ent_count 0 (λ j. name_eq d (entry start j) name)) in
      t

  gone : find_name after start name ≡ none
  unfolding find_name
  gone = find_first-none ent_count 0 _ (λ j l u. elim (ℕ_discrete j i) [
    | yes e ↦ rw e (
        name_eq-empty after (entry start i) name (cleared-entry d start i inum r lt is_dir.placed)
          valid)
    | no ne ↦ kept_name d start i inum r lt is_dir.placed j name ne valid.short ∙ alone j ne
  ])

  other : (s : Text) → IsName s → s ≢ name → name_eq d (entry start i) s ≡ false
  other s hs ne = elim (Bool-cases (name_eq d (entry start i) s)) [
    | inl t ↦ absurd (ne (name_eq-eq d (entry start i) s name hs.clean valid.clean t matched))
    | inr f ↦ f
  ]

  find_name-other : (s : Text) → IsName s → s ≢ name → find_name after start s ≡ find_name d start s
  unfolding find_name
  find_name-other s hs ne = find_first_congr ent_count 0 _ _ (λ j l u. elim (ℕ_discrete j i) [
    | yes e ↦ rw e (
        name_eq-empty after (entry start i) s (cleared-entry d start i inum r lt is_dir.placed) hs
        ∙ sym (other s hs ne))
    | no k ↦ kept_name d start i inum r lt is_dir.placed j s k hs.short
  ])

  find_name-Found :
      (s : Text) → FoundFirst ent_count 0 (λ j. name_eq d (entry start j) s) (find_name d start s)
  unfolding find_name
  find_name-Found s = find_first-FoundFirst ent_count 0 (λ j. name_eq d (entry start j) s)

  same_result :
      (s : Text)
      → IsName s
      → s ≢ name
      → (o : Option ℕ) → FoundFirst ent_count 0 (λ j. name_eq d (entry start j) s) o
      → result_of after start o ≡ result_of d start o
  same_result s hs ne none h = refl
  same_result s hs ne (some j) (l, u, t) =
      let apart : j ≢ i =
        λ e. let off : name_eq d (entry start j) s ≡ false = rw e (other s hs ne) in cc in
      ap to_int (kept_inum d start i inum r lt is_dir.placed j apart)

  -- Deleting a name of 1 to 59 bytes that one entry has, and whose inode has other links: 0 is
  -- returned, the name is not found any more, every other name is found as before, and the inode has
  -- one reference less.
  pub directory_delete_lem :
      let (rv, d') = directory_delete d dir name in
      (rv ≡ pos 0)
      × (directory_lookup d' dir name ≡ no_entry)
      × ((s : Text) → IsName s → s ≢ name → directory_lookup d' dir s ≡ directory_lookup d dir s)
      × (get32 d' (refs (get_inode inum)) ≡ r - 1)
  directory_delete_lem = rw directory_delete-cleared (
    refl,
    directory_lookup-result_of after dir name start none start-after gone,
    λ s hs ne.
        directory_lookup-result_of after dir s start (find_name d start s) start-after
          (find_name-other s hs ne)
        ∙ same_result s hs ne (find_name d start s) (find_name-Found s)
        ∙ sym (directory_lookup-result_of d dir s start (find_name d start s) refl refl),
    get32-cleared_refs d start i inum r lt is_dir.placed bounded,
  )
