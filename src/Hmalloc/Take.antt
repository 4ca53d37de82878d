-- ===== src/Hmalloc/Take.antt =====
-- `take_chunk` hands out a chunk of the free list, or the front of one.
use cs.Base.{
  ℕ, ◌+◌, ◌-◌, ◌^◌, ◌≤◌, ◌<◌, ◌≡◌, refl, ◌∙◌, ap, List, [], ◌∷◌, ◌++◌, true, false, ◌||◌, arith,
  ltb, lt→ltb, le→not_ltb, dec_lt,
}
use cs.Base.{Succeeds}
use cs.Hmalloc.{Cell, Heap, unlink_chunk, take_chunk, cell_size}
use cs.Hmalloc.Chunks.{
  Chunk, first_or, end_or, Spaced, more, Spaced-front, Spaced-rest, Spaced-append, Spaced-weaken,
  end_or-append, covers, covers-append, covers_below, covers_above, inside, end_or-le,
}
use cs.Hmalloc.Linked.{Linked}
use cs.Hmalloc.Merge.{cell_at}
use cs.Hmalloc.Free.{IsHeap, IsApart}
use cs.Hmalloc.Unlink.{unlink-Linked, unlink-header, unlink-head, split_chunk-Linked}

-- The result of `take_chunk`: the chunk that is handed out, and the chunks that are left.
pub record Taken (h' : Heap) (cs : List Chunk) (p n : ℕ) : Type 0 where
  pub size : ℕ
  pub left : List Chunk
  pub is_heap : IsHeap h' left
  pub header : (h'.mem p).size ≡ size
  pub low : 1 ≤ p
  pub fits : p + size ≤ 2 ^ 64
  pub enough : n ≤ size
  pub tight : size ≤ n + 24
  pub apart : IsApart left p size
  pub whole : (x : ℕ) → covers cs x ≡ (covers left x || inside p size x)

-- The bytes between two lists are in neither.
out :
    (us vs : List Chunk) (p s x : ℕ)
    → Spaced 1 0 us
    → end_or 0 us + 1 ≤ p
    → Spaced 1 (p + s) vs
    → inside p s x ≡ true
    → covers (us ++ vs) x ≡ false
unfolding inside
out us vs p s x su lo sv i =
    let f = covers_above 1 0 us x su in
    let g = covers_below 1 (p + s) vs x sv in
    let l : (p ≤ x) × (x < p + s) = ground arith in
    ground (arith, covers-append us vs x, f (omega arith), g (omega arith))

module _ (us vs : List Chunk) (p s n : ℕ) (h : Heap) (w : IsHeap h (us ++ (p, s) ∷ vs))
    (small : 24 ≤ n) (large : n ≤ s) where
  disjoint : Spaced 0 1 (us ++ (p, s) ∷ vs)
  disjoint = Spaced-weaken (us ++ (p, s) ∷ vs) (omega arith) (omega arith) w.spaced

  around : Spaced 1 0 us × (end_or 0 us + 1 ≤ p) × (24 ≤ s) × Spaced 1 (p + s) vs
  around = go (Spaced-rest us ((p, s) ∷ vs) w.spaced)
    where
      go :
          Spaced 1 (end_or 0 us) ((p, s) ∷ vs)
          → Spaced 1 0 us × (end_or 0 us + 1 ≤ p) × (24 ≤ s) × Spaced 1 (p + s) vs
      go (more a b c) = (Spaced-front us ((p, s) ∷ vs) w.spaced, omega arith, b, c)

  fits : p + s ≤ 2 ^ 64
  fits = omega (arith, w.bounded, end_or-append 0 us ((p, s) ∷ vs), end_or-le 1 (p + s) vs around.3)

  -- The whole chunk.
  take_whole : s ≤ n + 24 → Taken (unlink_chunk p h) (us ++ (p, s) ∷ vs) p n
  unfolding covers
  take_whole tight =
      let (su, lo, room, sv) = around in
      record {
        size = s;
        left = us ++ vs;
        is_heap = record {
          spaced = Spaced-append us vs su (Spaced-weaken vs (omega arith) (omega arith) sv);
          bounded = omega (
            arith,
            w.bounded,
            end_or-append 0 us ((p, s) ∷ vs),
            end_or-append 0 us vs,
            ends vs lo,
          );
          linked = unlink-Linked us vs p s h disjoint w.linked;
          head = unlink-head us vs p s h disjoint w.linked w.head;
        };
        header =
            ap (λ (c : Cell). c.size)
              (unlink-header us vs p s h disjoint w.linked ∙ cell_at us p s vs w.linked);
        low = omega arith;
        fits = fits;
        enough = large;
        tight = tight;
        apart = λ x i. out us vs p s x su lo sv i;
        whole = λ x. ground (arith, covers-append us ((p, s) ∷ vs) x, covers-append us vs x);
      }
    where
      ends : (vs : List Chunk) → end_or 0 us + 1 ≤ p → end_or (end_or 0 us) vs ≤ end_or (p + s) vs
      ends [] k = omega arith
      ends ((a, t) ∷ vs) k = omega arith

  -- The front of the chunk.
  take_split :
      (h' : Heap)
      → Linked h'.mem 0 (us ++ (p, n) ∷ (p + n, s - n) ∷ vs) 0
      → h'.head ≡ first_or 0 (us ++ (p, n) ∷ (p + n, s - n) ∷ vs)
      → Spaced 0 1 (us ++ (p, n) ∷ (p + n, s - n) ∷ vs)
      → 24 < s - n
      → Taken (unlink_chunk p h') (us ++ (p, s) ∷ vs) p n
  unfolding covers inside
  take_split h' lk head sp rest =
      let (su, lo, room, sv) = around in
      let ws : List Chunk = (p + n, s - n) ∷ vs in
      let after : Spaced 0 (p + n) ws =
        more (omega arith) (omega arith) (Spaced-weaken vs (omega arith) (omega arith) sv) in
      record {
        size = n;
        left = us ++ ws;
        is_heap = record {
          spaced =
              Spaced-append us ws su (
                more (omega arith) (omega arith) (Spaced-weaken vs (omega arith) (omega arith) sv));
          bounded = omega (
            arith,
            w.bounded,
            end_or-append 0 us ((p, s) ∷ vs),
            end_or-append 0 us ws,
            ap (λ e. end_or e vs) (let q : p + n + (s - n) ≡ p + s = omega arith in q),
          );
          linked = unlink-Linked us ws p n h' sp lk;
          head = unlink-head us ws p n h' sp lk head;
        };
        header =
            ap (λ (c : Cell). c.size) (unlink-header us ws p n h' sp lk ∙ cell_at us p n ws lk);
        low = omega arith;
        fits = omega (arith, fits);
        enough = omega arith;
        tight = omega arith;
        apart = λ x i.
            let f = covers_above 1 0 us x su in
            let g = covers_below 0 (p + n) ws x after in
            let l : (p ≤ x) × (x < p + n) = ground arith in
            covers-append us ws x ∙ rw (f (omega arith), g (omega arith)) refl;
        whole = λ x. ground (arith, covers-append us ((p, s) ∷ vs) x, covers-append us ws x);
      }

  pub take_chunk-Taken : Succeeds (take_chunk p n h) λ h'. Taken h' (us ++ (p, s) ∷ vs) p n
  unfolding take_chunk
  take_chunk-Taken =
      let size : (h.mem p).size ≡ s = ap (λ (c : Cell). c.size) (cell_at us p s vs w.linked) in
      let e : (h.mem p).size - n ≡ s - n = ap (λ v. v - n) size in
      elim (dec_lt cell_size (s - n)) [
        | yes k ↦
            let (h', run, (lk, head, sp)) =
              split_chunk-Linked us vs p s n h disjoint w.linked w.head fits small k in
            (
              unlink_chunk p h',
              rw (ap (ltb cell_size) e ∙ lt→ltb cell_size (s - n) k, run),
              take_split h' lk head sp k,
            )
        | no k ↦ (
          unlink_chunk p h,
          rw (ap (ltb cell_size) e ∙ le→not_ltb cell_size (s - n) (omega arith)),
          take_whole (omega arith),
        )
      ]
