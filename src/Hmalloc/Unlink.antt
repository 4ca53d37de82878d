-- ===== src/Hmalloc/Unlink.antt =====
-- `unlink_chunk` and `split_chunk`: a cell leaves the list, and the rest of a chunk goes into it.
use cs.Base.{
  ℕ, ◌+◌, ◌-◌, ◌^◌, ◌≤◌, ◌<◌, ◌≡◌, ◌≢◌, refl, sym, ◌∙◌, ap, subst, List, [], ◌∷◌, ◌++◌, true, false,
  arith, ◌==◌, if◌then◌else◌,
}
use cs.Base.{append_assoc, Succeeds}
use cs.Hmalloc.{
  Cell, Memory, Heap, set_size, set_next, set_last, make_fl_cell, insert_fl_cell, split_chunk,
  unlink_chunk,
}
use cs.Hmalloc.Chunks.{
  Chunk, first_or, last_or, Spaced, more, Spaced-front, Spaced-append, Spaced-weaken,
  first_or-append, end_or-append, length-end_or,
}
use cs.Hmalloc.Linked.{
  Linked, link, Linked-append, Linked-front, Linked-back, frame, relink_next, relink_last,
}
use cs.Hmalloc.Place.{behind, not_first}
use cs.Hmalloc.Insert.{insert_fl_cell-Linked}
use cs.Hmalloc.Merge.{cell_at, first_pos}
use cs.Hmalloc.Free.{Linked-cell}

-- `unlink_chunk` takes a chunk out of the list.
module _ (us ws : List Chunk) (p s : ℕ) (h : Heap) (sp : Spaced 0 1 (us ++ (p, s) ∷ ws))
    (lk : Linked h.mem 0 (us ++ (p, s) ∷ ws) 0) where
  abbrev pub prev : ℕ
  prev = last_or 0 us

  abbrev pub next : ℕ
  next = first_or 0 ws

  unlink-cell :
      (x : ℕ)
      → 1 ≤ x
      → (unlink_chunk p h).mem x ≡ (
          if x == prev
          then record (h.mem x) { next = next }
          else (if x == next then record (h.mem x) { last = prev } else h.mem x))
  unfolding unlink_chunk set_next set_last
  unlink-cell x low =
      let e = cell_at us p s ws lk in
      let e1 : (h.mem p).next ≡ next = ap (λ (w : Cell). w.next) e in
      let e2 : (h.mem p).last ≡ prev = ap (λ (w : Cell). w.last) e in
      let (low', lo, lt, room, back) = behind us ws p s sp in
      let order = first_pos ws back in rw (e1, e2) (ground arith)

  pub unlink-Linked : Linked (unlink_chunk p h).mem 0 (us ++ ws) 0
  unlink-Linked =
      let (low, lo, lt, room, back) = behind us ws p s sp in
      Linked-append us ws
        (relink_next us next (Spaced-front us ((p, s) ∷ ws) sp)
          (λ x l u.
            unlink-cell x l
            ∙ (let f : (x == next) ≡ false = not_first ws x back l (omega arith) in rw f refl))
          (Linked-front us ((p, s) ∷ ws) lk))
        (relink_last ws prev back
          (λ x l u.
            unlink-cell x (omega arith) ∙ (let f : (x == prev) ≡ false = ground arith in rw f refl))
          (tail (Linked-back us ((p, s) ∷ ws) lk)))
    where
      tail : {q : ℕ} → Linked h.mem q ((p, s) ∷ ws) 0 → Linked h.mem p ws 0
      tail (link e k) = k

  pub unlink-header : (unlink_chunk p h).mem p ≡ h.mem p
  unlink-header =
      let (low, lo, lt, room, back) = behind us ws p s sp in
      let f : (p == prev) ≡ false = ground arith in
      let g : (p == next) ≡ false = not_first ws p back low (omega arith) in
      unlink-cell p low ∙ rw (f, g) refl

pub unlink-head :
    (us ws : List Chunk) (p s : ℕ) (h : Heap)
    → Spaced 0 1 (us ++ (p, s) ∷ ws)
    → Linked h.mem 0 (us ++ (p, s) ∷ ws) 0
    → h.head ≡ first_or 0 (us ++ (p, s) ∷ ws)
    → (unlink_chunk p h).head ≡ first_or 0 (us ++ ws)
unfolding unlink_chunk
unlink-head [] ws p s h sp (link e lk) head =
    let here : (h.head == p) ≡ true = ground arith in
    let e1 : (h.mem p).next ≡ first_or 0 ws = ap (λ (w : Cell). w.next) e in rw (here, e1)
unlink-head ((a, t) ∷ us) ws p s h (more b c d) lk head =
    let far = spaced_le us d in
    let not_here : (h.head == p) ≡ false = ground arith in rw not_here head
  where
    spaced_le : (us : List Chunk) {lo : ℕ} → Spaced 0 lo (us ++ (p, s) ∷ ws) → lo ≤ p
    spaced_le [] (more x y z) = omega arith
    spaced_le ((q, u) ∷ us) (more x y z) = omega (arith, spaced_le us z)

-- The cell of a chunk gets another size.
resize-Linked :
    (us vs : List Chunk) (p s n : ℕ) (mem : Memory)
    → Spaced 0 1 (us ++ (p, s) ∷ vs)
    → Linked mem 0 (us ++ (p, s) ∷ vs) 0
    → Linked (set_size mem p n) 0 (us ++ (p, n) ∷ vs) 0
unfolding set_size
resize-Linked us vs p s n mem sp lk =
    let (low, lo, lt, room, back) = behind us vs p s sp in
    let here : (p == p) ≡ true = ground arith in
    let change : Cell → Cell = λ w. record w { size = n } in
    Linked-append us ((p, n) ∷ vs)
      (frame us (Spaced-front us ((p, s) ∷ vs) sp)
        (λ x l u. let f : (x == p) ≡ false = ground arith in rw f refl)
        (Linked-front us ((p, s) ∷ vs) lk))
      (link (rw here (ap change (cell_at us p s vs lk))) (
        frame vs back (λ x l u. let f : (x == p) ≡ false = ground arith in rw f refl)
          (tail (Linked-back us ((p, s) ∷ vs) lk))))
  where
    tail : {q : ℕ} → Linked mem q ((p, s) ∷ vs) 0 → Linked mem p vs 0
    tail (link e k) = k

made : (a v : ℕ) (mem : Memory) (x : ℕ) → x ≢ a → make_fl_cell mem a v x ≡ mem x
unfolding make_fl_cell
made a v mem x ne = let f : (x == a) ≡ false = ground arith in rw f refl

made_size : (a v : ℕ) (mem : Memory) → (make_fl_cell mem a v a).size ≡ v
unfolding make_fl_cell
made_size a v mem = let t : (a == a) ≡ true = ground arith in rw t refl

-- `split_chunk` leaves the rest of the chunk behind it in the list.
pub split_chunk-Linked :
    (us vs : List Chunk) (p s n : ℕ) (h : Heap)
    → Spaced 0 1 (us ++ (p, s) ∷ vs)
    → Linked h.mem 0 (us ++ (p, s) ∷ vs) 0
    → h.head ≡ first_or 0 (us ++ (p, s) ∷ vs)
    → p + s ≤ 2 ^ 64
    → 24 ≤ n
    → 24 < s - n
    → Succeeds (split_chunk p n h) λ h'.
      Linked h'.mem 0 (us ++ (p, n) ∷ (p + n, s - n) ∷ vs) 0
      × (h'.head ≡ first_or 0 (us ++ (p, n) ∷ (p + n, s - n) ∷ vs))
      × Spaced 0 1 (us ++ (p, n) ∷ (p + n, s - n) ∷ vs)
unfolding split_chunk
split_chunk-Linked us vs p s n h sp lk head fits small rest =
    let (low, lo, lt, room, back) = behind us vs p s sp in
    let size : (h.mem p).size ≡ s = ap (λ (w : Cell). w.size) (cell_at us p s vs lk) in
    let m = make_fl_cell (set_size h.mem p n) (p + n) (s - n) in
    let left_over : ℕ → Heap =
      λ v. record { mem = make_fl_cell (set_size h.mem p n) (p + n) v; head = h.head } in
    let front : List Chunk = us ++ (p, n) ∷ [] in
    let assoc : (ws : List Chunk) → front ++ ws ≡ us ++ (p, n) ∷ ws =
      append_assoc us ((p, n) ∷ []) in
    let sp' : Spaced 0 1 (us ++ (p, n) ∷ (p + n, s - n) ∷ vs) =
      Spaced-append us ((p, n) ∷ (p + n, s - n) ∷ vs) (Spaced-front us ((p, s) ∷ vs) sp) (
        more (omega arith) small
          (more (omega arith) (omega arith) (Spaced-weaken vs (omega arith) (omega arith) back))) in
    let sp1 = subst (Spaced 0 1) (sym (assoc ((p + n, s - n) ∷ vs))) sp' in
    let lk1 =
      subst (λ w. Linked (set_size h.mem p n) 0 w 0) (sym (assoc vs))
        (resize-Linked us vs p s n h.mem sp lk) in
    let lk2 : Linked m 0 (front ++ vs) 0 =
      Linked-cell front vs (p + n) (s - n) sp1 (made (p + n) (s - n) (set_size h.mem p n)) lk1 in
    let starts : first_or 0 (us ++ (p, s) ∷ vs) ≡ first_or 0 (front ++ vs) =
      first_or-append 0 us ((p, s) ∷ vs)
      ∙ sym (first_or-append 0 us ((p, n) ∷ vs))
      ∙ sym (ap (first_or 0) (assoc vs)) in
    let (h', run, (lk3, head')) =
      insert_fl_cell-Linked front vs (p + n) (s - n) (record { mem = m; head = h.head }) sp1
        (omega (
          arith,
          length-end_or 1 front (Spaced-front front ((p + n, s - n) ∷ vs) sp1),
          end_or-append 1 us ((p, n) ∷ []),
        ))
        lk2 (made_size (p + n) (s - n) (set_size h.mem p n)) (head ∙ starts) in
    (
      h',
      ap (λ v. insert_fl_cell (p + n) (left_over (v - n))) size ∙ run,
      (
        subst (λ w. Linked h'.mem 0 w 0) (assoc ((p + n, s - n) ∷ vs)) lk3,
        head' ∙ ap (first_or 0) (assoc ((p + n, s - n) ∷ vs)),
        sp',
      ),
    )
