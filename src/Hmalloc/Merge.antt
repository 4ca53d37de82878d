-- ===== src/Hmalloc/Merge.antt =====
-- Two cells of the list that touch: what the halves of `coalesce` write.
use cs.Base.{
  ℕ, ◌+◌, ◌≤◌, ◌<◌, ◌≡◌, refl, ◌∙◌, ap, List, [], ◌∷◌, ◌++◌, true, false, ◌⊎◌, inl, inr, arith,
  ◌==◌, if◌then◌else◌,
}
use cs.Base.{ret}
use cs.Hmalloc.{Cell, cell, Memory, set_size, set_next, set_last, coalesce_next, coalesce_last}
use cs.Hmalloc.Chunks.{Chunk, first_or, last_or, Spaced, more, Spaced-front}
use cs.Hmalloc.Linked.{Linked, link, Linked-append, Linked-front, Linked-back, frame, relink_last}
use cs.Hmalloc.Place.{behind, not_first}

-- The memory where `p` and the chunk behind it, before `vs`, have become one of `s` bytes.
abbrev merged : Memory → ℕ → ℕ → ℕ → List Chunk → Memory
merged mem q p s vs x =
    if x == p
    then cell s (first_or 0 vs) q
    else (if x == first_or 0 vs then record (mem x) { last = p } else mem x)

merge-Linked :
    {mem mem' : Memory} (us vs : List Chunk) (p s a t : ℕ)
    → Spaced 0 1 (us ++ (p, s) ∷ (a, t) ∷ vs)
    → Linked mem 0 (us ++ (p, s) ∷ (a, t) ∷ vs) 0
    → ((x : ℕ) → 1 ≤ x → mem' x ≡ merged mem (last_or 0 us) p (s + t) vs x)
    → Linked mem' 0 (us ++ (p, s + t) ∷ vs) 0
merge-Linked {mem} {mem'} us vs p s a t sp lk same =
    let (low, lo, lt, room, back) = behind us ((a, t) ∷ vs) p s sp in
    let here : (p == p) ≡ true = ground arith in
    Linked-append us ((p, s + t) ∷ vs)
      (frame us (Spaced-front us ((p, s) ∷ (a, t) ∷ vs) sp)
        (λ x l u.
          same x l
          ∙ (let not_p : (x == p) ≡ false = ground arith in
              let not_v : (x == first_or 0 vs) ≡ false =
                not_first vs x (rest back) l (omega (arith, far back)) in
              rw (not_p, not_v) refl))
        (Linked-front us ((p, s) ∷ (a, t) ∷ vs) lk))
      (link (same p low ∙ rw here refl) (
        relink_last vs p (rest back)
          (λ x l u.
            same x (omega (arith, far back))
            ∙ (let not_p : (x == p) ≡ false = (let f = far back in ground arith) in rw not_p refl))
          (tail (Linked-back us ((p, s) ∷ (a, t) ∷ vs) lk))))
  where
    rest : {lo : ℕ} → Spaced 0 lo ((a, t) ∷ vs) → Spaced 0 (a + t) vs
    rest (more b c d) = d

    far : {lo : ℕ} → Spaced 0 lo ((a, t) ∷ vs) → lo ≤ a
    far (more b c d) = omega arith

    tail : {q : ℕ} → Linked mem q ((p, s) ∷ (a, t) ∷ vs) 0 → Linked mem a vs 0
    tail (link e (link e' d)) = d

-- What the two halves write for the cell `p` and the one behind it, which `n` follows.
abbrev pub joined : Memory → ℕ → ℕ → ℕ → Memory
joined mem p n size =
    let m = set_size (set_next mem p n) p size in if n == 0 then m else set_last m n p

joined-cell :
    (mem : Memory) (p s n q size x : ℕ)
    → (mem p).last ≡ q
    → 1 ≤ p
    → (n ≡ 0) ⊎ (p < n)
    → 1 ≤ x
    → joined mem p n size x
      ≡ (if x == p then cell size n q else (if x == n then record (mem x) { last = p } else mem x))
unfolding set_next set_size set_last
joined-cell mem p s n q size x e low ord pos' = ground arith

pub coalesce_next-joined :
    (mem : Memory) (p s a t n q : ℕ)
    → mem p ≡ cell s a q
    → mem a ≡ cell t n p
    → p + s ≡ a
    → 1 ≤ a
    → coalesce_next p mem ≡ ret (joined mem p n (s + t))
unfolding coalesce_next
coalesce_next-joined mem p s a t n q e e' touch low =
    let next : (mem p).next ≡ a = ap (λ (w : Cell). w.next) e in
    let size : (mem p).size ≡ s = ap (λ (w : Cell). w.size) e in
    let next' : (mem a).next ≡ n = ap (λ (w : Cell). w.next) e' in
    let size' : (mem a).size ≡ t = ap (λ (w : Cell). w.size) e' in
    let nz : (a == 0) ≡ false = ground arith in
    let meet : (p + s == a) ≡ true = ground arith in rw (next, size, next', size', nz, meet)

pub coalesce_last-joined :
    (mem : Memory) (p s b t n q : ℕ)
    → mem b ≡ cell t p q
    → mem p ≡ cell s n b
    → b + t ≡ p
    → 1 ≤ b
    → coalesce_last p mem ≡ ret (joined mem b n (t + s))
unfolding coalesce_last
coalesce_last-joined mem p s b t n q e e' touch low =
    let last : (mem p).last ≡ b = ap (λ (w : Cell). w.last) e' in
    let size : (mem p).size ≡ s = ap (λ (w : Cell). w.size) e' in
    let next : (mem p).next ≡ n = ap (λ (w : Cell). w.next) e' in
    let size' : (mem b).size ≡ t = ap (λ (w : Cell). w.size) e in
    let nz : (b == 0) ≡ false = ground arith in
    let meet : (b + t == p) ≡ true = ground arith in rw (last, size, next, size', nz, meet)

-- Chunks that do not touch stay as they are.
pub coalesce_next-apart :
    (mem : Memory) (p s a q : ℕ)
    → mem p ≡ cell s a q
    → (a ≡ 0) ⊎ (p + s < a)
    → coalesce_next p mem ≡ ret mem
unfolding coalesce_next
coalesce_next-apart mem p s a q e apart =
    let next : (mem p).next ≡ a = ap (λ (w : Cell). w.next) e in
    let size : (mem p).size ≡ s = ap (λ (w : Cell). w.size) e in rw (next, size) (ground arith)

pub coalesce_last-apart :
    (mem : Memory) (p b t : ℕ)
    → (mem p).last ≡ b
    → (mem b).size ≡ t
    → (b ≡ 0) ⊎ (b + t < p)
    → coalesce_last p mem ≡ ret mem
unfolding coalesce_last
coalesce_last-apart mem p b t last size apart = rw (last, size) (ground arith)

pub first_pos :
    (vs : List Chunk) {gap lo : ℕ}
    → Spaced gap lo vs
    → (first_or 0 vs ≡ 0) ⊎ (lo + gap ≤ first_or 0 vs)
first_pos [] h = inl refl
first_pos ((a, t) ∷ vs) (more b c d) = inr b

-- What the cell of `p` says, where the list is linked.
pub cell_at :
    {mem : Memory} (us : List Chunk) (p s : ℕ) (vs : List Chunk)
    → Linked mem 0 (us ++ (p, s) ∷ vs) 0
    → mem p ≡ cell s (first_or 0 vs) (last_or 0 us)
cell_at {mem} us p s vs lk = go (Linked-back us ((p, s) ∷ vs) lk)
  where
    go : {q : ℕ} → Linked mem q ((p, s) ∷ vs) 0 → mem p ≡ cell s (first_or 0 vs) q
    go (link e k) = e

pub cell_behind :
    {mem : Memory} (us : List Chunk) (p s a t : ℕ) (vs : List Chunk)
    → Linked mem 0 (us ++ (p, s) ∷ (a, t) ∷ vs) 0
    → mem a ≡ cell t (first_or 0 vs) p
cell_behind {mem} us p s a t vs lk = go (Linked-back us ((p, s) ∷ (a, t) ∷ vs) lk)
  where
    go : {q : ℕ} → Linked mem q ((p, s) ∷ (a, t) ∷ vs) 0 → mem a ≡ cell t (first_or 0 vs) p
    go (link e (link e' k)) = e'

-- Two chunks that touch, and the chunks around them, become one.
pub join-Linked :
    (mem : Memory) (us : List Chunk) (p s a t : ℕ) (vs : List Chunk)
    → Spaced 0 1 (us ++ (p, s) ∷ (a, t) ∷ vs)
    → Linked mem 0 (us ++ (p, s) ∷ (a, t) ∷ vs) 0
    → Linked (joined mem p (first_or 0 vs) (s + t)) 0 (us ++ (p, s + t) ∷ vs) 0
join-Linked mem us p s a t vs sp lk =
    let (low, lo, lt, room, back) = behind us ((a, t) ∷ vs) p s sp in
    let prev : (mem p).last ≡ last_or 0 us =
      ap (λ (w : Cell). w.last) (cell_at us p s ((a, t) ∷ vs) lk) in
    merge-Linked us vs p s a t sp lk
      (λ x l. joined-cell mem p s (first_or 0 vs) (last_or 0 us) (s + t) x prev low (order back) l)
  where
    order : Spaced 0 (p + s) ((a, t) ∷ vs) → (first_or 0 vs ≡ 0) ⊎ (p < first_or 0 vs)
    order (more b c d) = elim (first_pos vs d) [ inl e ↦ inl e | inr l ↦ inr (omega arith) ]
