-- ===== src/Quicksort/Partition.antt =====
-- `partition`: the smaller numbers of the range, then the pivot, then the others.
use cs.Base.{
  ◌≢◌, ℕ, ◌+◌, ◌-◌, ◌≤◌, ◌<◌, ◌≡◌, ◌∙◌, ap, ap₂, List, Bool, true, false, inl, inr, arith, ℤ, pos,
  Bool-cases, ℕ_discrete, length,
}
use cs.Base.{Succeeds, read-get_or, for_range-Succeeds}
use cs.Quicksort.{less, partition_round, partition}
use cs.Quicksort.Exchange.{
  Exchanged, cell, Moved, Moved-refl, Moved-trans, Moved-widen, swap-Exchanged, Exchanged-Moved,
}

-- What `partition` returns for the range from `lo` to `hi`: the place of a number of the range
-- that has only smaller ones in front of it and no smaller one behind it.
pub record Parted (lo hi : ℕ) (xs : List ℤ) (pp : ℕ) (ys : List ℤ) : Type 0 where
  pub moved : Moved lo hi xs ys
  pub above : lo ≤ pp
  pub below : pp < hi
  pub low : (k : ℕ) → lo ≤ k → k < pp → less (cell ys k) (cell ys pp) ≡ true
  pub high : (k : ℕ) → pp < k → k < hi → less (cell ys k) (cell ys pp) ≡ false

-- Before the round for `jj`.
record Sifted (lo : ℕ) (xs : List ℤ) (pivot : ℤ) (jj : ℕ) (s : ℕ × List ℤ) : Type 0 where
  moved : Moved lo jj xs s.1
  above : lo ≤ s.0
  below : s.0 ≤ jj
  low : (k : ℕ) → lo ≤ k → k < s.0 → less (cell s.1 k) pivot ≡ true
  high : (k : ℕ) → s.0 ≤ k → k < jj → less (cell s.1 k) pivot ≡ false

abbrev is_less : ℤ → ℤ → Bool
is_less pivot x = less x pivot

round-Sifted :
    {lo : ℕ} {xs : List ℤ} (pivot : ℤ) (jj ii : ℕ) (ys : List ℤ)
    → jj < length xs
    → Sifted lo xs pivot jj (ii, ys)
    → Succeeds (partition_round pivot jj (ii, ys)) (Sifted lo xs pivot (jj + 1))
unfolding partition_round
round-Sifted {lo} {xs} pivot jj ii ys h s =
    let m = s.moved in
    let found = read-get_or ys jj (pos 0) (omega (arith, m.sized)) in
    elim (Bool-cases (less (cell ys jj) pivot)) [
      | inl t ↦
          let (zs, run, e) =
            swap-Exchanged ys ii jj (omega (arith, m.sized, s.below)) (omega (arith, m.sized)) in
          let b : ii ≤ jj = s.below in
          let a : lo ≤ ii = s.above in
          (
            (ii + 1, zs),
            rw (found, t, run),
            record {
              moved =
                  Moved-trans (Moved-widen (omega arith) (omega arith) m)
                    (Exchanged-Moved {ys = zs} a (omega arith) (omega arith) (omega arith) e);
              above = omega arith;
              below = omega arith;
              low = λ k l lt. elim (ℕ_discrete k ii) [
                | yes p ↦ ap (is_less pivot) (ground (arith, e.cells k)) ∙ t
                | no p ↦ ap (is_less pivot) (ground (arith, e.cells k)) ∙ s.low k l (omega arith)
              ];
              high = λ k l lt. elim (ℕ_discrete k jj) [
                | yes p ↦
                    ap (is_less pivot) (ground (arith, e.cells k))
                    ∙ s.high ii (omega arith) (omega arith)
                | no p ↦
                    ap (is_less pivot) (ground (arith, e.cells k))
                    ∙ s.high k (omega arith) (omega arith)
              ];
            },
          )
      | inr t ↦ (
        (ii, ys),
        rw (found, t),
        record {
          moved = Moved-widen (omega arith) (omega arith) m;
          above = s.above;
          below = let b : ii ≤ jj = s.below in omega arith;
          low = s.low;
          high = λ k l lt. elim (ℕ_discrete k jj) [
            | yes p ↦ ap (λ j. less (cell ys j) pivot) p ∙ t
            | no p ↦ s.high k l (omega arith)
          ];
        },
      )
    ]

-- The pivot goes between the smaller numbers and the others.
Sifted-Parted :
    {lo hi ii : ℕ} {xs ys zs : List ℤ}
    → lo < hi
    → Sifted lo xs (cell xs (hi - 1)) (hi - 1) (ii, ys)
    → Exchanged ii (hi - 1) ys zs
    → Parted lo hi xs ii zs
Sifted-Parted {lo} {hi} {ii} {xs} {ys} {zs} ne s e =
    let last = hi - 1 in
    let m = s.moved in
    let b : ii ≤ last = s.below in
    let a : lo ≤ ii = s.above in
    let placed : cell zs ii ≡ cell xs last =
      (let c : cell zs ii ≡ cell ys last = ground (arith, e.cells ii) in
        c ∙ m.behind last (omega arith)) in
    record {
      moved =
          Moved-trans (Moved-widen (omega arith) (omega arith) m)
            (Exchanged-Moved a (omega arith) (omega arith) (omega arith) e);
      above = a;
      below = omega arith;
      low = λ k l lt. ap₂ less (kept k (omega arith) (omega arith)) placed ∙ s.low k l lt;
      high = λ k l lt. elim (ℕ_discrete k last) [
        | yes p ↦
            ap₂ less (let c : cell zs k ≡ cell ys ii = ground (arith, e.cells k) in c) placed
            ∙ s.high ii (omega arith) (omega arith)
        | no p ↦ ap₂ less (kept k (omega arith) p) placed ∙ s.high k (omega arith) (omega arith)
      ];
    }
  where
    kept : (k : ℕ) → k ≢ ii → k ≢ hi - 1 → cell zs k ≡ cell ys k
    kept k ni nl = ground (arith, e.cells k)

-- On a range of at least one number inside the array, `partition` does not fault, rearranges the
-- range alone, and returns the place of a number with only smaller ones before it in the range, and
-- no smaller one after it.
pub partition-Parted :
    (xs : List ℤ) (lo hi : ℕ)
    → lo < hi
    → hi ≤ length xs
    → Succeeds (partition xs lo hi) λ r. Parted lo hi xs r.0 r.1
unfolding partition
partition-Parted xs lo hi ne fits =
    let last = hi - 1 in
    let pivot = cell xs last in
    let (r, run, s) =
      for_range-Succeeds (Sifted lo xs pivot) (partition_round pivot) last
        (λ i t lt h. round-Sifted pivot i t.0 t.1 (omega arith) h) (last - lo) lo (lo, xs)
        (omega arith)
        (record {
          moved = Moved-refl xs;
          above = omega arith;
          below = omega arith;
          low = λ k l lt. absurd (omega arith);
          high = λ k l lt. absurd (omega arith);
        }) in
    let m = s.moved in
    let (zs, run', e) =
      swap-Exchanged r.1 r.0 last (let b : r.0 ≤ last = s.below in omega (arith, m.sized))
        (omega (arith, m.sized)) in
    ((r.0, zs), rw (read-get_or xs last (pos 0) (omega arith), run, run'), Sifted-Parted ne s e)
