-- ===== src/OptMalloc/Lists.antt =====
-- pop and insert_fl_cell of chal2/starter-ch02/opt_malloc.c: a chunk leaves its list for the blocks in
-- use, or comes back.
use cs.Base.{
  ℕ, ◌+◌, ◌^◌, ◌≤◌, ◌<◌, ◌≡◌, refl, sym, ◌∙◌, ap, subst, List, ◌∷◌, false, inl, inr, arith, ◌==◌,
  if◌then◌else◌, lt→ltb, ==_iff, Bool-cases, dec_lt, ret, Succeeds,
}
use cs.OptMalloc.{Memory, Heap, get64, put64, chunk, get_head, set_head, pop, insert_fl_cell}
use cs.OptMalloc.Words.{put64-outside, get64-put64, get64-put64_apart}
use cs.OptMalloc.Blocks.{
  Block, block, inside, inside_in, covers, chunks, covers_free, chunk_bounds, with_list,
  covers_free-with_list,
}
use cs.OptMalloc.Chains.{Chain, IsHeap, Only, Chain-small, IsHeap-frame}

pub get_head_lem : (h : Heap) (i : ℕ) → i < 16 → get_head h i ≡ ret (h.heads i)
unfolding get_head
get_head_lem h i lt = rw (lt→ltb i 16 lt) refl

pub set_head_lem :
    (h : Heap) (i p : ℕ)
    → i < 16
    → set_head h i p ≡ ret (record h { heads = λ j. if j == i then p else h.heads j })
unfolding set_head
set_head_lem h i p lt = rw (lt→ltb i 16 lt) refl

-- One list is another, and starts elsewhere.
pub chains-set :
    (h : Heap) (free : ℕ → List ℕ) (i p : ℕ) (ps : List ℕ)
    → ((j : ℕ) → j < 16 → Chain (chunk j) h.mem (h.heads j) (free j))
    → Chain (chunk i) h.mem p ps
    → (j : ℕ) → j < 16
    → Chain (chunk j) h.mem (if j == i then p else h.heads j) (with_list free i ps j)
unfolding with_list
chains-set h free i p ps chains c j lt = elim (Bool-cases (j == i)) [
  | inl e ↦ rw e (rw ((==_iff j i).0 e) c)
  | inr e ↦ rw e (chains j lt)
]

-- The first chunk of a list is handed out.
pub pop_lem :
    (h : Heap) (free : ℕ → List ℕ) (live : List Block) (i a : ℕ) (ps : List ℕ)
    → i < 16
    → free i ≡ a ∷ ps
    → IsHeap h free live
    → Succeeds (pop h i) λ r.
      (r.0 ≡ a)
      × (r.1.mem ≡ h.mem)
      × (0 < r.0)
      × ((x : ℕ)
          → covers_free 16 (with_list free i ps) x + inside r.0 (chunk i) x ≡ covers_free 16 free x)
      × IsHeap r.1 (with_list free i ps) (block r.0 (chunk i) ∷ live)
unfolding pop Chain covers
pop_lem h free live i a ps lt first w =
    let c : Chain (chunk i) h.mem (h.heads i) (a ∷ ps) =
      subst (Chain (chunk i) h.mem (h.heads i)) first (w.chains i lt) in
    let (at, nz, fits, size, rest) = c in
    let p = h.heads i in
    let q = get64 h.mem (p + 8) in
    let h' : Heap = record h { heads = λ j. if j == i then q else h.heads j } in
    let full : (p == 0) ≡ false = ground arith in
    let nz' : 0 < p = omega (arith, at, nz) in
    let fits' : p + chunk i ≤ 2 ^ 64 = omega (arith, at, fits) in
    let size' = subst (λ k. get64 h.mem k ≡ chunk i) (sym at) size in
    let inside_at : (x : ℕ) → inside p (chunk i) x ≡ inside a (chunk i) x =
      λ x. ap (λ k. inside k (chunk i) x) at in
    let rest' = subst (λ k. Chain (chunk i) h.mem (get64 h.mem (k + 8)) ps) (sym at) rest in
    (
      (p, h'),
      rw (get_head_lem h i lt) (rw full (rw (set_head_lem h i q lt) refl)),
      (
        at,
        refl,
        nz',
        λ x.
            let gone = covers_free-with_list 16 free i ps x lt in
            let was = ap (λ l. covers (chunks (chunk i) l) x) first in
            omega (arith, gone, was, inside_at x),
        record {
          chains = chains-set h free i q ps w.chains rest';
          apart = λ x.
              let gone = covers_free-with_list 16 free i ps x lt in
              let was = ap (λ l. covers (chunks (chunk i) l) x) first in
              omega (arith, w.apart x, gone, was, inside_at x);
          held = (
            record { nonzero = nz'; fits = fits'; header = size'; sized = inl (i, lt, refl) },
            w.held,
          );
        },
      ),
    )

-- A block in use is put in front of its list.
pub insert_fl_cell_lem :
    (h : Heap) (free : ℕ → List ℕ) (live : List Block) (i a : ℕ)
    → i < 16
    → IsHeap h free (block a (chunk i) ∷ live)
    → Succeeds
        (insert_fl_cell h i a)
        λ h'. IsHeap h' (with_list free i (a ∷ free i)) live × Only h.mem h'.mem (block a (chunk i))
unfolding insert_fl_cell Chain covers
insert_fl_cell_lem h free live i a lt w =
    let b = block a (chunk i) in
    let p = h.heads i in
    let mem' : Memory = put64 h.mem (a + 8) p in
    let big = (chunk_bounds i lt).0 in
    let only : Only h.mem mem' b = λ x out.
      put64-outside h.mem (a + 8) p x (elim (dec_lt x (a + 8)) [
        | yes lo ↦ inl lo
        | no hi ↦ elim (dec_lt x (a + 16)) [
          | yes in_word ↦ absurd (
              omega (
                arith,
                out,
                inside_in a (chunk i) x (omega (arith, hi)) (omega (arith, in_word, big)),
              ))
          | no above ↦ inr (omega (arith, above))
        ]
      ]) in
    let rest : IsHeap h free live = record {
      chains = w.chains;
      apart = λ x. omega (arith, w.apart x);
      held = w.held.1;
    } in
    let w' = IsHeap-frame h free live mem' b rest (λ x. omega (arith, w.apart x)) only in
    let h1 : Heap = record h { mem = mem' } in
    let here = w.held.0 in
    let header : get64 mem' a ≡ chunk i =
      get64-put64_apart h.mem (a + 8) p a (inl (omega arith)) ∙ here.header in
    let link : get64 mem' (a + 8) ≡ p =
      get64-put64 h.mem (a + 8) p
        (Chain-small (chunk i) h.mem p (free i) (omega (arith, big)) (w.chains i lt)) in
    (
      record h1 { heads = λ j. if j == i then a else h.heads j },
      rw (get_head_lem h i lt) (set_head_lem h1 i a lt),
      (
        record {
          chains = chains-set h1 free i a (a ∷ free i) w'.chains (
            refl,
            here.nonzero,
            here.fits,
            header,
            subst (λ q. Chain (chunk i) mem' q (free i)) (sym link) (w'.chains i lt),
          );
          apart = λ x. omega (arith, w.apart x, covers_free-with_list 16 free i (a ∷ free i) x lt);
          held = w'.held;
        },
        only,
      ),
    )
