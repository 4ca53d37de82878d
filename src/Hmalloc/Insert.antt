-- ===== src/Hmalloc/Insert.antt =====
-- `insert_fl_cell`: the new cell gets its place by address.
use cs.Base.{
  ℕ, zero, suc, ◌+◌, ◌≤◌, ◌<◌, ◌≡◌, refl, ◌∙◌, ap, List, [], ◌∷◌, ◌++◌, true, false, arith, ◌==◌,
  if◌then◌else◌, lt→ltb, le→not_ltb, length,
}
use cs.Base.{ret, Succeeds}
use cs.Hmalloc.{
  Cell, cell, Heap, set_next, set_last, link_before, link_behind, insert_loop, insert_fl_cell,
  rounds,
}
use cs.Hmalloc.Chunks.{le-last_or, Chunk, first_or, last_or, Spaced, more, Spaced-front}
use cs.Hmalloc.Linked.{Linked, over, link, Linked-back}
use cs.Hmalloc.Place.{inserted, behind, insert-Linked}

-- Where the loop stops, for the list `us ++ vs` and a cell between the two.
abbrev pub found : List Chunk → List Chunk → ℕ → Heap → Heap
found us [] p h = link_behind (last_or 0 us) p h
found us ((a, t) ∷ vs) p h = link_before a p h

module _ (p s : ℕ) (h : Heap) where
  insert_loop-found :
      (us vs : List Chunk) (f : ℕ) {lo prev : ℕ}
      → 1 ≤ lo
      → Spaced 0 lo (us ++ (p, s) ∷ vs)
      → Linked h.mem prev (us ++ vs) 0
      → 0 < length (us ++ vs)
      → length us < f
      → insert_loop f (first_or 0 (us ++ vs)) p h ≡ ret (found us vs p h)
  unfolding insert_loop
  insert_loop-found us vs zero low sp lk ne lt = absurd (omega arith)
  insert_loop-found [] [] (suc f) low sp lk ne lt = absurd (omega arith)
  insert_loop-found [] ((a, t) ∷ vs) (suc f) low (more b c (more b' c' sp)) lk ne lt =
      let nz : (a == 0) ≡ false = ground arith in rw (nz, lt→ltb p a (omega arith))
  insert_loop-found ((b, t) ∷ []) [] (suc f) low (more l c (more l' c' sp)) (link e lk) ne lt =
      let nz : (b == 0) ≡ false = ground arith in
      let next : (h.mem b).next ≡ 0 = ap (λ (w : Cell). w.next) e in
      rw (nz, le→not_ltb p b (omega arith), next)
  insert_loop-found ((b, t) ∷ []) ((a, t') ∷ vs) (suc f) low (more l c (more l' c' (more l2 c2 sp)))
        (link e lk) ne lt =
      let nz : (b == 0) ≡ false = ground arith in
      let next : (h.mem b).next ≡ a = ap (λ (w : Cell). w.next) e in
      let nz' : (a == 0) ≡ false = ground arith in
      rw (nz, le→not_ltb p b (omega arith), next, nz')
        (insert_loop-found [] ((a, t') ∷ vs) f (omega arith) (more l' c' (more l2 c2 sp)) lk
          (omega arith) (omega arith))
  insert_loop-found ((b, t) ∷ (d, u) ∷ us) vs (suc f) low (more l c (more l' c' sp)) (link e lk) ne
        lt =
      let nz : (b == 0) ≡ false = ground arith in
      let next : (h.mem b).next ≡ d = ap (λ (w : Cell). w.next) e in
      let nz' : (d == 0) ≡ false = ground arith in
      let above = before us vs sp in
      rw (nz, le→not_ltb p b (omega arith), next, nz')
        (insert_loop-found ((d, u) ∷ us) vs f (omega arith) (more l' c' sp) lk (omega arith)
          (omega arith))
    where
      before : (us vs : List Chunk) {lo : ℕ} → Spaced 0 lo (us ++ (p, s) ∷ vs) → lo ≤ p
      before [] vs (more l c sp) = omega arith
      before ((b, t) ∷ us) vs (more l c sp) = omega (arith, before us vs sp)

-- What the two ways to link a cell do to a cell.
before-cell :
    (h : Heap) (p s a l x : ℕ)
    → (h.mem a).last ≡ l
    → (h.mem p).size ≡ s
    → l < p
    → p < a
    → 1 ≤ x
    → (link_before a p h).mem x ≡ (
        if x == p
        then cell s a l
        else (if x == l
            then record (h.mem x) { next = p }
            else (if x == a then record (h.mem x) { last = p } else h.mem x)))
unfolding link_before set_next set_last
before-cell h p s a l x e z lp pa low = ground arith

behind-cell :
    (h : Heap) (p s l x : ℕ)
    → (h.mem p).size ≡ s
    → l < p
    → 1 ≤ x
    → (link_behind l p h).mem x
      ≡ (if x == p then cell s 0 l else (if x == l then record (h.mem x) { next = p } else h.mem x))
unfolding link_behind set_next set_last
behind-cell h p s l x z lp low = ground arith

-- The memory and the head, where the loop stops.
found-inserted :
    (us vs : List Chunk) (p s : ℕ) (h : Heap)
    → Spaced 0 1 (us ++ (p, s) ∷ vs)
    → Linked h.mem 0 (us ++ vs) 0
    → (h.mem p).size ≡ s
    → 0 < length (us ++ vs)
    → h.head ≡ first_or 0 (us ++ vs)
    → ((x : ℕ) → 1 ≤ x → (found us vs p h).mem x ≡ inserted h.mem us p s vs x)
      × ((found us vs p h).head ≡ first_or 0 (us ++ (p, s) ∷ vs))
unfolding link_behind link_before
found-inserted [] [] p s h sp lk z ne head = absurd (omega arith)
found-inserted ((b, t) ∷ us) [] p s h sp lk z ne head =
    let (low, lo, lt, room, back) = behind ((b, t) ∷ us) [] p s sp in
    (
      λ x l.
          behind-cell h p s (last_or b us) x z lt l
          ∙ (let no_null : (x == 0) ≡ false = ground arith in rw no_null refl),
      head,
    )
found-inserted [] ((a, t) ∷ vs) p s h (more c d (more c' d' sp)) (link e lk) z ne head =
    let prev : (h.mem a).last ≡ 0 = ap (λ (w : Cell). w.last) e in
    (λ x l. before-cell h p s a 0 x prev z (omega arith) (omega arith) l, rw prev refl)
found-inserted ((b, t) ∷ us) ((a, t') ∷ vs) p s h sp lk z ne head =
    let (low, lo, lt, room, back) = behind ((b, t) ∷ us) ((a, t') ∷ vs) p s sp in
    let prev = pred a t' vs (Linked-back ((b, t) ∷ us) ((a, t') ∷ vs) lk) in
    let far : 1 ≤ last_or b us =
      (let w = Spaced-front ((b, t) ∷ us) ((p, s) ∷ (a, t') ∷ vs) sp in last_pos w) in
    let no_null : (last_or b us == 0) ≡ false = ground arith in
    (
      λ x l. before-cell h p s a (last_or b us) x prev z lt (first a t' vs room back) l,
      rw (prev, no_null) head,
    )
  where
    pred :
        (a t' : ℕ) (vs : List Chunk) {q : ℕ} → Linked h.mem q ((a, t') ∷ vs) 0 → (h.mem a).last ≡ q
    pred a t' vs (link e lk) = ap (λ (w : Cell). w.last) e

    first : (a' t'' : ℕ) (vs' : List Chunk) → 24 ≤ s → Spaced 0 (p + s) ((a', t'') ∷ vs') → p < a'
    first a' t'' vs' room (more c d sp') = omega arith

    last_pos : Spaced 0 1 ((b, t) ∷ us) → 1 ≤ last_or b us
    last_pos (more c d sp') = omega (arith, le-last_or (b + t) b us sp' (omega arith))

module _ (us vs : List Chunk) (p s : ℕ) (h : Heap) (sp : Spaced 0 1 (us ++ (p, s) ∷ vs))
    (lk : Linked h.mem 0 (us ++ vs) 0) (z : (h.mem p).size ≡ s)
    (head : h.head ≡ first_or 0 (us ++ vs)) where
  pub Placed : Heap → Type 0
  Placed h' = Linked h'.mem 0 (us ++ (p, s) ∷ vs) 0 × (h'.head ≡ first_or 0 (us ++ (p, s) ∷ vs))

  into_some :
      length us < rounds
      → 0 < length (us ++ vs)
      → (first_or 0 (us ++ vs) == 0) ≡ false
      → Succeeds (insert_fl_cell p h) Placed
  unfolding insert_fl_cell Placed
  into_some few ne nz =
      let (mems, head') = found-inserted us vs p s h sp lk z ne head in
      (
        found us vs p h,
        rw (ap (λ n. n == 0) head ∙ nz) (
            ap (λ n. insert_loop rounds n p h) head
            ∙ insert_loop-found p s h us vs rounds (omega arith) sp lk ne few),
        (insert-Linked us vs p s sp lk mems, head'),
      )

into_empty :
    (p s : ℕ) (h : Heap)
    → (h.mem p).size ≡ s
    → h.head ≡ 0
    → Succeeds (insert_fl_cell p h) λ h'. Linked h'.mem 0 ((p, s) ∷ []) 0 × (h'.head ≡ p)
unfolding insert_fl_cell set_next set_last
into_empty p s h z head =
    let here : (p == p) ≡ true = ground arith in
    let m = set_next (set_last h.mem p 0) p 0 in
    (record { mem = m; head = p }, rw head refl, (link (rw (here, z) refl) over, refl))

-- `insert_fl_cell` puts the cell between the chunks before it and those behind it.
pub insert_fl_cell-Linked :
    (us vs : List Chunk) (p s : ℕ) (h : Heap)
    → Spaced 0 1 (us ++ (p, s) ∷ vs)
    → length us < rounds
    → Linked h.mem 0 (us ++ vs) 0
    → (h.mem p).size ≡ s
    → h.head ≡ first_or 0 (us ++ vs)
    → Succeeds
        (insert_fl_cell p h)
        λ h'. Linked h'.mem 0 (us ++ (p, s) ∷ vs) 0 × (h'.head ≡ first_or 0 (us ++ (p, s) ∷ vs))
unfolding Placed
insert_fl_cell-Linked [] [] p s h sp few lk z head = into_empty p s h z head
insert_fl_cell-Linked [] ((a, t) ∷ vs) p s h (more c d (more c' d' sp)) few lk z head =
    into_some [] ((a, t) ∷ vs) p s h (more c d (more c' d' sp)) lk z head few (omega arith)
      (ground arith)
insert_fl_cell-Linked ((b, t) ∷ us) vs p s h (more c d sp) few lk z head =
    into_some ((b, t) ∷ us) vs p s h (more c d sp) lk z head few (omega arith) (ground arith)
