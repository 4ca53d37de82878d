-- ===== src/Hmalloc/Free.antt =====
-- The heap against the list of its free chunks, and `hfree`.
use cs.Base.{
  le→not_ltb, ℕ, ◌+◌, ◌-◌, ◌^◌, ◌≤◌, ◌<◌, ◌≡◌, ◌≢◌, refl, sym, ◌∙◌, ap, subst, List, [], ◌∷◌, ◌++◌,
  true, false, ◌||◌, arith, ◌==◌, lt→not_leb, dec_lt,
}
use cs.Base.{ret, Succeeds}
use cs.Hmalloc.{Memory, Heap, State, make_fl_cell, insert_fl_cell, coalesce, hfree, page_size}
use cs.Hmalloc.Chunks.{
  Chunk, first_or, end_or, Spaced, over, more, Spaced-front, Spaced-weaken, end_or-append,
  length-end_or, covers, covers-append, inside,
}
use cs.Hmalloc.Linked.{Linked, Linked-append, Linked-front, Linked-back, frame}
use cs.Hmalloc.Place.{behind}
use cs.Hmalloc.Insert.{insert_fl_cell-Linked}
use cs.Hmalloc.Coalesce.{coalesce-Coalesced}

-- The free list of the heap is `cs`: its chunks lie in the address space, in order, and none of them
-- touch; they are linked both ways from `head`.
pub record IsHeap (h : Heap) (cs : List Chunk) : Type 0 where
  pub spaced : Spaced 1 0 cs
  pub bounded : end_or 0 cs ≤ 2 ^ 64
  pub linked : Linked h.mem 0 cs 0
  pub head : h.head ≡ first_or 0 cs

-- None of the bytes of the chunk is in the list.
abbrev pub IsApart : List Chunk → ℕ → ℕ → Type 0
IsApart cs p s = (x : ℕ) → inside p s x ≡ true → covers cs x ≡ false

-- The place of such a chunk in the list.
pub record Place (lo lo' : ℕ) (cs : List Chunk) (p s : ℕ) : Type 0 where
  pub us : List Chunk
  pub vs : List Chunk
  pub parts : cs ≡ us ++ vs
  pub spaced : Spaced 0 lo' (us ++ (p, s) ∷ vs)
  pub front : Spaced 1 lo us
  pub back : Spaced 1 0 vs

place :
    (cs : List Chunk) (p s : ℕ) {lo lo' : ℕ}
    → Spaced 1 lo cs
    → lo' ≤ lo + 1
    → lo' ≤ p
    → 24 ≤ s
    → IsApart cs p s
    → Place lo lo' cs p s
unfolding covers inside
place [] p s sp l l' room apart = record {
  us = [];
  vs = [];
  parts = refl;
  spaced = more (omega arith) room over;
  front = over;
  back = over;
}
place ((a, t) ∷ cs) p s (more b c d) l l' room apart = elim (dec_lt p a) [
  | yes lt ↦
      let le : p + s ≤ a = elim (dec_lt a (p + s)) [
        | yes k ↦ let q = apart a in absurd (ground arith)
        | no k ↦ omega arith
      ] in
      record {
        us = [];
        vs = (a, t) ∷ cs;
        parts = refl;
        spaced =
            more (omega arith) room
              (more (omega arith) c (Spaced-weaken cs (omega arith) (omega arith) d));
        front = over;
        back = more (omega arith) c d;
      }
  | no nlt ↦
      let le : a + t ≤ p = elim (dec_lt p (a + t)) [
        | yes k ↦ let q = apart p in absurd (ground arith)
        | no k ↦ omega arith
      ] in
      let r =
        place cs p s {lo = a + t} {lo' = a + t} d (omega arith) le room
          (λ x i. let q = apart x i in ground arith) in
      record {
        us = (a, t) ∷ r.us;
        vs = r.vs;
        parts = ap (λ w. (a, t) ∷ w) r.parts;
        spaced = more (omega arith) c r.spaced;
        front = more b c r.front;
        back = r.back;
      }
]

-- A change of the cell at `p` alone leaves the list as it is.
pub Linked-cell :
    {mem mem' : Memory} (us vs : List Chunk) (p s : ℕ)
    → Spaced 0 1 (us ++ (p, s) ∷ vs)
    → ((x : ℕ) → x ≢ p → mem' x ≡ mem x)
    → Linked mem 0 (us ++ vs) 0
    → Linked mem' 0 (us ++ vs) 0
Linked-cell us vs p s sp same lk =
    let (low, lo, lt, room, back) = behind us vs p s sp in
    Linked-append us vs
      (frame us (Spaced-front us ((p, s) ∷ vs) sp) (λ x l u. same x (omega arith))
        (Linked-front us vs lk))
      (frame vs back (λ x l u. same x (omega arith)) (Linked-back us vs lk))

-- What is left when a chunk has gone into the list.
pub record Given (h : Heap) (cs : List Chunk) (p s : ℕ) : Type 0 where
  pub linked_in : Heap
  pub mem' : Memory
  pub cs' : List Chunk
  pub run : insert_fl_cell p (record h { mem = make_fl_cell h.mem p s }) ≡ ret linked_in
  pub run' : coalesce p linked_in.mem ≡ ret mem'
  pub is_heap : IsHeap (record linked_in { mem = mem' }) cs'
  pub same : (x : ℕ) → covers cs' x ≡ (covers cs x || inside p s x)

pub give :
    (h : Heap) (cs : List Chunk) (p s : ℕ)
    → IsHeap h cs
    → 1 ≤ p
    → 24 ≤ s
    → p + s ≤ 2 ^ 64
    → IsApart cs p s
    → Given h cs p s
unfolding make_fl_cell covers
give h cs p s w low room fits apart =
    let r = place cs p s {lo = 0} {lo' = 1} w.spaced (omega arith) low room apart in
    let us = r.us in
    let vs = r.vs in
    let m0 = make_fl_cell h.mem p s in
    let (low', lo, lt, room', back) = behind us vs p s r.spaced in
    let lk : Linked m0 0 (us ++ vs) 0 =
      Linked-cell us vs p s r.spaced (λ x ne. let f : (x == p) ≡ false = ground arith in rw f refl)
        (subst (λ c. Linked h.mem 0 c 0) r.parts w.linked) in
    let (h1, run1, (lk1, head1)) =
      insert_fl_cell-Linked us vs p s (record { mem = m0; head = h.head }) r.spaced
        (omega (arith, length-end_or 1 us (Spaced-front us ((p, s) ∷ vs) r.spaced))) lk
        (let t : (p == p) ≡ true = ground arith in rw t refl) (w.head ∙ ap (first_or 0) r.parts) in
    let (m2, run2, (cs', co)) = coalesce-Coalesced h1.mem us p s vs r.spaced r.front r.back lk1 in
    record {
      linked_in = h1;
      mem' = m2;
      cs' = cs';
      run = run1;
      run' = run2;
      is_heap = record {
        spaced = co.spaced;
        bounded = omega (
          arith,
          co.ends,
          end_or-append 0 us ((p, s) ∷ vs),
          ends vs us (omega (arith, w.bounded, ap (end_or 0) r.parts, end_or-append 0 us vs)),
        );
        linked = co.linked;
        head = head1 ∙ sym co.head;
      };
      same = λ x. ground (
        arith,
        co.same x,
        covers-append us ((p, s) ∷ vs) x,
        covers-append us vs x,
        ap (λ c. covers c x) r.parts,
      );
    }
  where
    ends : (vs us : List Chunk) → end_or (end_or 0 us) vs ≤ 2 ^ 64 → end_or (p + s) vs ≤ 2 ^ 64
    ends [] us k = fits
    ends ((a, t) ∷ vs) us k = k

-- A chunk of less than a page that was in use, apart from the free ones: `hfree` does not fault,
-- the heap stays well formed, the bytes of the chunk and no others become free, and one chunk more
-- is counted as freed.
pub hfree-IsHeap :
    (st : State) (cs : List Chunk) (p : ℕ)
    → IsHeap st.heap cs
    → 1 ≤ p
    → 24 ≤ (st.heap.mem p).size
    → (st.heap.mem p).size < page_size
    → p + (st.heap.mem p).size ≤ 2 ^ 64
    → IsApart cs p (st.heap.mem p).size
    → Succeeds (hfree (p + 8) st) λ st'.
      ((cs' : List Chunk) × IsHeap st'.heap cs'
        × ((x : ℕ) → covers cs' x ≡ (covers cs x || inside p (st.heap.mem p).size x)))
      × (st'.stats ≡ record st.stats { chunks_freed = st.stats.chunks_freed + 1 })
unfolding hfree
hfree-IsHeap st cs p w low room small fits apart =
    let s = (st.heap.mem p).size in
    let g = give st.heap cs p s w low room fits apart in
    let back : p + 8 - 8 ≡ p = omega arith in
    (
      record {
        heap = record g.linked_in { mem = g.mem' };
        stats = record st.stats { chunks_freed = st.stats.chunks_freed + 1 };
      },
      rw (le→not_ltb (p + 8) 8 (omega arith), back, lt→not_leb page_size s small, g.run, g.run'),
      ((g.cs', g.is_heap, g.same), refl),
    )
