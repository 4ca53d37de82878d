-- ===== src/Hmalloc/Coalesce.antt =====
-- `coalesce`: neighbours that touch become one chunk.
use cs.Base.{
  append_assoc, ℕ, ◌+◌, ◌≤◌, ◌≡◌, refl, sym, ◌∙◌, ap, subst, List, [], ◌∷◌, ◌++◌, inl, inr, arith,
  ℕ_discrete,
}
use cs.Base.{Succeeds}
use cs.Hmalloc.{Cell, Memory, coalesce_next, coalesce_last, coalesce}
use cs.Hmalloc.Chunks.{
  first_or-append, Chunk, first_or, last_or, end_or, Spaced, over, more, Spaced-front, Spaced-rest,
  Spaced-append, Spaced-weaken, covers, covers-append, inside, snoc-cases, end_or-append,
}
use cs.Hmalloc.Linked.{Linked}
use cs.Hmalloc.Place.{behind}
use cs.Hmalloc.Merge.{
  joined, coalesce_next-joined, coalesce_last-joined, coalesce_next-apart, coalesce_last-apart,
  cell_at, cell_behind, join-Linked,
}

-- The chunk `p` and those behind it after `coalesce_next`.
record Forward (us : List Chunk) (p s : ℕ) (vs : List Chunk) (mem' : Memory) (s' : ℕ)
    (vs' : List Chunk) : Type 0 where
  room : 24 ≤ s'
  spaced : Spaced 1 (p + s') vs'
  linked : Linked mem' 0 (us ++ (p, s') ∷ vs') 0
  same : (x : ℕ) → covers ((p, s') ∷ vs') x ≡ covers ((p, s) ∷ vs) x
  ends : end_or (p + s') vs' ≡ end_or (p + s) vs

coalesce_next-Forward :
    (mem : Memory) (us : List Chunk) (p s : ℕ) (vs : List Chunk)
    → Spaced 0 1 (us ++ (p, s) ∷ vs)
    → Spaced 1 0 vs
    → Linked mem 0 (us ++ (p, s) ∷ vs) 0
    → Succeeds
        (coalesce_next p mem)
        λ mem'. (s' : ℕ) × (vs' : List Chunk) × Forward us p s vs mem' s' vs'
unfolding covers inside
coalesce_next-Forward mem us p s [] sp sv lk =
    let (low, lo, lt, room, back) = behind us [] p s sp in
    (
      mem,
      coalesce_next-apart mem p s 0 (last_or 0 us) (cell_at us p s [] lk) (inl refl),
      (s, [], record { room = room; spaced = over; linked = lk; same = λ x. refl; ends = refl }),
    )
coalesce_next-Forward mem us p s ((a, t) ∷ vs) sp (more l r sv) lk =
    let (low, lo, lt, room, back) = behind us ((a, t) ∷ vs) p s sp in
    let le : p + s ≤ a = near back in
    elim (ℕ_discrete (p + s) a) [
      | yes e ↦ (
        joined mem p (first_or 0 vs) (s + t),
        coalesce_next-joined mem p s a t (first_or 0 vs) (last_or 0 us)
            (cell_at us p s ((a, t) ∷ vs) lk) (cell_behind us p s a t vs lk) e (omega arith),
        (
          s + t,
          vs,
          record {
            room = omega arith;
            spaced = Spaced-weaken vs (omega arith) (omega arith) sv;
            linked = join-Linked mem us p s a t vs sp lk;
            same = λ x. ground arith;
            ends = ap (λ n. end_or n vs) (let e' : p + (s + t) ≡ a + t = omega arith in e');
          },
        ),
      )
      | no ne ↦ (
        mem,
        coalesce_next-apart mem p s a (last_or 0 us) (cell_at us p s ((a, t) ∷ vs) lk)
            (inr (omega arith)),
        (
          s,
          (a, t) ∷ vs,
          record {
            room = room;
            spaced = more (omega arith) r sv;
            linked = lk;
            same = λ x. refl;
            ends = refl;
          },
        ),
      )
    ]
  where
    near : Spaced 0 (p + s) ((a, t) ∷ vs) → p + s ≤ a
    near (more b c d) = omega arith

-- A list of chunks that do not touch, with the same bytes as `cs`, stands in memory.
pub record Coalesced (cs : List Chunk) (mem' : Memory) (cs' : List Chunk) : Type 0 where
  pub spaced : Spaced 1 0 cs'
  pub linked : Linked mem' 0 cs' 0
  pub same : (x : ℕ) → covers cs' x ≡ covers cs x
  pub head : first_or 0 cs' ≡ first_or 0 cs
  pub ends : end_or 0 cs' ≡ end_or 0 cs

coalesce_last-first :
    (mem : Memory) (p s : ℕ) (vs : List Chunk)
    → 1 ≤ p
    → 24 ≤ s
    → Spaced 1 (p + s) vs
    → Linked mem 0 ((p, s) ∷ vs) 0
    → Succeeds (coalesce_last p mem) λ mem'. (cs' : List Chunk) × Coalesced ((p, s) ∷ vs) mem' cs'
coalesce_last-first mem p s vs low room sv lk = (
  mem,
  coalesce_last-apart mem p 0 (mem 0).size (ap (λ (w : Cell). w.last) (cell_at [] p s vs lk)) refl
      (inl refl),
  (
    (p, s) ∷ vs,
    record { spaced = more low room sv; linked = lk; same = λ x. refl; head = refl; ends = refl },
  ),
)

coalesce_last-behind :
    (mem : Memory) (ts : List Chunk) (b t p s : ℕ) (vs : List Chunk)
    → Spaced 1 0 (ts ++ (b, t) ∷ [])
    → b + t ≤ p
    → 24 ≤ s
    → Spaced 1 (p + s) vs
    → Linked mem 0 (ts ++ (b, t) ∷ (p, s) ∷ vs) 0
    → Succeeds
        (coalesce_last p mem)
        λ mem'. (cs' : List Chunk) × Coalesced (ts ++ (b, t) ∷ (p, s) ∷ vs) mem' cs'
unfolding covers inside
coalesce_last-behind mem ts b t p s vs su le room sv lk =
    let front : Spaced 1 0 ts = Spaced-front ts ((b, t) ∷ []) su in
    let (lo, room') = last_of (Spaced-rest ts ((b, t) ∷ []) su) in
    let sp : Spaced 0 1 (ts ++ (b, t) ∷ (p, s) ∷ vs) =
      Spaced-append ts ((b, t) ∷ (p, s) ∷ vs) (Spaced-weaken ts (omega arith) (omega arith) front) (
        more (under lo front) room'
          (more (omega arith) room (Spaced-weaken vs (omega arith) (omega arith) sv))) in
    let e = cell_at ts b t ((p, s) ∷ vs) lk in
    let e' = cell_behind ts b t p s vs lk in
    elim (ℕ_discrete (b + t) p) [
      | yes touch ↦ (
        joined mem b (first_or 0 vs) (t + s),
        coalesce_last-joined mem p s b t (first_or 0 vs) (last_or 0 ts) e e' touch (omega arith),
        (
          ts ++ (b, t + s) ∷ vs,
          record {
            spaced =
                Spaced-append ts ((b, t + s) ∷ vs) front
                  (more lo (omega arith) (Spaced-weaken vs (omega arith) (omega arith) sv));
            linked = join-Linked mem ts b t p s vs sp lk;
            same = λ x. ground (
              arith,
              covers-append ts ((b, t + s) ∷ vs) x,
              covers-append ts ((b, t) ∷ (p, s) ∷ vs) x,
            );
            head =
                first_or-append 0 ts ((b, t + s) ∷ vs)
                ∙ sym (first_or-append 0 ts ((b, t) ∷ (p, s) ∷ vs));
            ends =
                end_or-append 0 ts ((b, t + s) ∷ vs)
                ∙ ap (λ n. end_or n vs) (let q : b + (t + s) ≡ p + s = omega arith in q)
                ∙ sym (end_or-append 0 ts ((b, t) ∷ (p, s) ∷ vs));
          },
        ),
      )
      | no ne ↦ (
        mem,
        coalesce_last-apart mem p b t (ap (λ (w : Cell). w.last) e') (ap (λ (w : Cell). w.size) e)
            (inr (omega arith)),
        (
          ts ++ (b, t) ∷ (p, s) ∷ vs,
          record {
            spaced =
                Spaced-append ts ((b, t) ∷ (p, s) ∷ vs) front
                  (more lo room' (more (omega arith) room sv));
            linked = lk;
            same = λ x. refl;
            head = refl;
            ends = refl;
          },
        ),
      )
    ]
  where
    last_of : Spaced 1 (end_or 0 ts) ((b, t) ∷ []) → (end_or 0 ts + 1 ≤ b) × (24 ≤ t)
    last_of (more c d f) = (omega arith, d)

    under : end_or 0 ts + 1 ≤ b → Spaced 1 0 ts → end_or 1 ts + 0 ≤ b
    under lo front = low_end ts front lo
      where
        low_end : (us : List Chunk) → Spaced 1 0 us → end_or 0 us + 1 ≤ b → end_or 1 us + 0 ≤ b
        low_end [] h l = omega arith
        low_end ((q, u) ∷ us) h l = omega arith

-- `coalesce_last` with any list before the chunk.
module _ (mem : Memory) (p s : ℕ) (vs : List Chunk) (low : 1 ≤ p) (room : 24 ≤ s)
    (sv : Spaced 1 (p + s) vs) where
  abbrev Result : List Chunk → Type 0
  Result w = Succeeds (coalesce_last p mem) λ mem'. (cs' : List Chunk) × Coalesced w mem' cs'

  abbrev Goal : List Chunk → Type 0
  Goal us =
      Spaced 1 0 us
      → end_or 1 us ≤ p
      → Linked mem 0 (us ++ (p, s) ∷ vs) 0
      → Result (us ++ (p, s) ∷ vs)

  last_step : (us : List Chunk) → Goal us
  last_step us = elim (snoc-cases us) [
    | inl e ↦ subst Goal (sym e) (λ su lo lk. coalesce_last-first mem p s vs low room sv lk)
    | inr (ts, (b, t), e) ↦ subst Goal (sym e) (λ su lo lk.
        let whole : (ts ++ (b, t) ∷ []) ++ (p, s) ∷ vs ≡ ts ++ (b, t) ∷ (p, s) ∷ vs =
          append_assoc ts ((b, t) ∷ []) ((p, s) ∷ vs) in
        subst Result (sym whole) (
          coalesce_last-behind mem ts b t p s vs su
            (omega (arith, end_or-append 1 ts ((b, t) ∷ []))) room sv
            (subst (λ w. Linked mem 0 w 0) whole lk)))
  ]

-- `coalesce` of a chunk among others that do not touch: it does not fault, and afterwards no chunks
-- touch; the bytes are the same.
pub coalesce-Coalesced :
    (mem : Memory) (us : List Chunk) (p s : ℕ) (vs : List Chunk)
    → Spaced 0 1 (us ++ (p, s) ∷ vs)
    → Spaced 1 0 us
    → Spaced 1 0 vs
    → Linked mem 0 (us ++ (p, s) ∷ vs) 0
    → Succeeds (coalesce p mem) λ mem'. (cs' : List Chunk) × Coalesced (us ++ (p, s) ∷ vs) mem' cs'
unfolding coalesce
coalesce-Coalesced mem us p s vs sp su sv lk =
    let (low, lo, lt, room, back) = behind us vs p s sp in
    let (mem1, run1, (s', vs', fw)) = coalesce_next-Forward mem us p s vs sp sv lk in
    let (mem2, run2, (cs', co)) =
      last_step mem1 p s' vs' low fw.room fw.spaced us su lo fw.linked in
    (
      mem2,
      rw run1 run2,
      (
        cs',
        record {
          spaced = co.spaced;
          linked = co.linked;
          same = λ x. ground (
            arith,
            co.same x,
            fw.same x,
            covers-append us ((p, s') ∷ vs') x,
            covers-append us ((p, s) ∷ vs) x,
          );
          head =
              co.head
              ∙ first_or-append 0 us ((p, s') ∷ vs')
              ∙ sym (first_or-append 0 us ((p, s) ∷ vs));
          ends =
              co.ends
              ∙ end_or-append 0 us ((p, s') ∷ vs')
              ∙ fw.ends
              ∙ sym (end_or-append 0 us ((p, s) ∷ vs));
        },
      ),
    )
