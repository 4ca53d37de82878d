-- ===== src/Quicksort/Sorted.antt =====
-- `quicksort` sorts.
use cs.Base.{
  ℕ, zero, suc, ◌+◌, ◌-◌, ◌≤◌, ◌<◌, ◌≡◌, refl, ◌∙◌, ap, ap₂, List, true, false, arith, ℤ, pos,
  negsuc, ltb, dec_lt, ℕ_discrete, length,
}
use cs.Base.{Succeeds}
use cs.Quicksort.{less, quicksort_fuel, quicksort}
use cs.Quicksort.Exchange.{cell, Moved, Moved-refl, Moved-trans, Moved-widen}
use cs.Quicksort.Partition.{Parted, partition-Parted}

less_irrefl : (x : ℤ) → less x x ≡ false
unfolding less
less_irrefl (pos a) = ground arith
less_irrefl (negsuc a) = ground arith

less_asymm : (x y : ℤ) → less x y ≡ true → less y x ≡ false
unfolding less
less_asymm (pos a) (pos b) h = ground arith
less_asymm (pos a) (negsuc b) h = absurd (ground arith)
less_asymm (negsuc a) (pos b) h = refl
less_asymm (negsuc a) (negsuc b) h = ground arith

-- What is smaller than `p` has nothing in front of it that is not.
less_split : (x y p : ℤ) → less x p ≡ true → less y p ≡ false → less y x ≡ false
unfolding less
less_split (pos a) (pos b) (pos c) h h' = ground arith
less_split (pos a) (negsuc b) (pos c) h h' = absurd (ground arith)
less_split (pos a) y (negsuc c) h h' = absurd (ground arith)
less_split (negsuc a) (pos b) p h h' = refl
less_split (negsuc a) (negsuc b) (pos c) h h' = absurd (ground arith)
less_split (negsuc a) (negsuc b) (negsuc c) h h' = ground arith

-- The range from `lo` to `hi` is in order, and was only rearranged.
pub record Sorts (lo hi : ℕ) (xs ys : List ℤ) : Type 0 where
  pub moved : Moved lo hi xs ys
  pub ordered : (i j : ℕ) → lo ≤ i → i ≤ j → j < hi → less (cell ys j) (cell ys i) ≡ false

-- The sorted parts on either side of the pivot make a sorted range.
module _ {lo hi pp : ℕ} {xs ys zs ws : List ℤ} (c : Parted lo hi xs pp ys)
    (left : Sorts lo pp ys zs) (right : Sorts (pp + 1) hi zs ws) where
  mid : cell ws pp ≡ cell ys pp
  mid = right.moved.before pp (omega arith) ∙ left.moved.behind pp (omega arith)

  low_cell : (k : ℕ) → lo ≤ k → k < pp → less (cell ws k) (cell ws pp) ≡ true
  low_cell k l h =
      let (j, jl, jh, e) = left.moved.inside k l h in
      ap₂ less (right.moved.before k (omega arith) ∙ e) mid ∙ c.low j jl jh

  high_cell : (k : ℕ) → pp < k → k < hi → less (cell ws k) (cell ws pp) ≡ false
  high_cell k l h =
      let (j, jl, jh, e) = right.moved.inside k (omega arith) h in
      ap₂ less (e ∙ left.moved.behind j (omega arith)) mid ∙ c.high j (omega arith) jh

  joined : (i j : ℕ) → lo ≤ i → i ≤ j → j < hi → less (cell ws j) (cell ws i) ≡ false
  joined i j l le h = elim (dec_lt pp i) [
    | yes p ↦ right.ordered i j (omega arith) le h
    | no p ↦ elim (dec_lt j pp) [
      | yes q ↦
          ap₂ less (right.moved.before j (omega arith)) (right.moved.before i (omega arith))
          ∙ left.ordered i j l le q
      | no q ↦ across i j l le h (omega arith) (omega arith)
    ]
  ]
    where
      across :
          (i j : ℕ)
          → lo ≤ i
          → i ≤ j
          → j < hi
          → i ≤ pp
          → pp ≤ j
          → less (cell ws j) (cell ws i) ≡ false
      across i j l le h ip pj = elim (ℕ_discrete i pp) [
        | yes p ↦ elim (ℕ_discrete j pp) [
          | yes q ↦ ap₂ less (ap (cell ws) q) (ap (cell ws) p) ∙ less_irrefl (cell ws pp)
          | no q ↦ ap (λ k. less (cell ws j) (cell ws k)) p ∙ high_cell j (omega arith) h
        ]
        | no p ↦
            let below : less (cell ws i) (cell ws pp) ≡ true = low_cell i l (omega arith) in
            elim (ℕ_discrete j pp) [
              | yes q ↦
                  ap (λ k. less (cell ws k) (cell ws i)) q
                  ∙ less_asymm (cell ws i) (cell ws pp) below
              | no q ↦
                  less_split (cell ws i) (cell ws j) (cell ws pp) below
                    (high_cell j (omega arith) h)
            ]
      ]

  parts-Sorts : Sorts lo hi xs ws
  parts-Sorts = record {
    moved = Moved-trans c.moved (
        Moved-trans
          (Moved-widen (omega arith) (let b : pp < hi = c.below in omega arith) left.moved)
          (Moved-widen (let a : lo ≤ pp = c.above in omega arith) (omega arith) right.moved));
    ordered = joined;
  }

quicksort_fuel-Sorts :
    (f : ℕ) (xs : List ℤ) (lo hi : ℕ)
    → hi - lo < f
    → hi ≤ length xs
    → Succeeds (quicksort_fuel f xs lo hi) (Sorts lo hi xs)
unfolding quicksort_fuel
quicksort_fuel-Sorts zero xs lo hi enough fits = absurd (omega arith)
quicksort_fuel-Sorts (suc f) xs lo hi enough fits = elim (dec_lt lo hi) [
  | yes h ↦
      let ((pp, ys), run, c) = partition-Parted xs lo hi h fits in
      let a : lo ≤ pp = c.above in
      let b : pp < hi = c.below in
      let s : length ys ≡ length xs = c.moved.sized in
      let (zs, run1, left) = quicksort_fuel-Sorts f ys lo pp (omega arith) (omega arith) in
      let s' : length zs ≡ length ys = left.moved.sized in
      let (ws, run2, right) = quicksort_fuel-Sorts f zs (pp + 1) hi (omega arith) (omega arith) in
      let more : ltb (hi - lo) 1 ≡ false = ground arith in
      (ws, rw (more, run, run1) run2, parts-Sorts c left right)
  | no h ↦
      let stop : ltb (hi - lo) 1 ≡ true = ground arith in
      (xs, rw stop, record { moved = Moved-refl xs; ordered = λ i j l le lt. absurd (omega arith) })
]

-- On a range inside the array `quicksort` does not fault and ends: afterwards no number of the range
-- is smaller than one before it, every value is there as often as before, and nothing outside the
-- range has changed.
pub quicksort-Sorts :
    (xs : List ℤ) (lo hi : ℕ) → hi ≤ length xs → Succeeds (quicksort xs lo hi) (Sorts lo hi xs)
unfolding quicksort
quicksort-Sorts xs lo hi fits = quicksort_fuel-Sorts (hi - lo + 1) xs lo hi (omega arith) fits
