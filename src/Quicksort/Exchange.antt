-- ===== src/Quicksort/Exchange.antt =====
-- `swap`, and what a rearrangement inside a range of the array keeps.
use cs.Base.{
  ℕ, zero, suc, ◌+◌, ◌≤◌, ◌<◌, ◌≡◌, refl, ◌∙◌, ap, List, [], ◌∷◌, Bool, true, false, arith, ℤ, pos,
  ◌==◌, if◌then◌else◌, dec_lt, ℕ_discrete, length, get_or,
}
use cs.Base.{Succeeds, store-set, read-get_or, set, length-set, get_or-set, get_or_congr}
use cs.Quicksort.{swap}

abbrev pub cell : List ℤ → ℕ → ℤ
cell xs k = get_or xs k (pos 0)

abbrev pub one_if : Bool → ℕ
one_if b = if b then 1 else 0

-- How many numbers of the list satisfy `P`.
abbrev pub tally : (ℤ → Bool) → List ℤ → ℕ
tally P [] = 0
tally P (x ∷ xs) = one_if (P x) + tally P xs

tally-set :
    (P : ℤ → Bool) (xs : List ℤ) (i : ℕ) (v : ℤ)
    → i < length xs
    → tally P (set xs i v) + one_if (P (cell xs i)) ≡ tally P xs + one_if (P v)
tally-set P [] i v h = absurd (omega arith)
tally-set P (x ∷ xs) zero v h = omega arith
tally-set P (x ∷ xs) (suc i) v h = omega (arith, tally-set P xs i v (omega arith))

-- The array is rearranged from `lo` to `hi`: every value is there as often as before, nothing
-- outside changes, and what stands inside came from inside.
pub record Moved (lo hi : ℕ) (xs ys : List ℤ) : Type 0 where
  pub sized : length ys ≡ length xs
  pub same : (P : ℤ → Bool) → tally P ys ≡ tally P xs
  pub before : (k : ℕ) → k < lo → cell ys k ≡ cell xs k
  pub behind : (k : ℕ) → hi ≤ k → cell ys k ≡ cell xs k
  pub inside : (k : ℕ) → lo ≤ k → k < hi → (j : ℕ) × (lo ≤ j) × (j < hi) × (cell ys k ≡ cell xs j)

pub Moved-refl : {lo hi : ℕ} (xs : List ℤ) → Moved lo hi xs xs
Moved-refl xs = record {
  sized = refl;
  same = λ P. refl;
  before = λ k h. refl;
  behind = λ k h. refl;
  inside = λ k l h. (k, l, h, refl);
}

pub Moved-trans :
    {lo hi : ℕ} {xs ys zs : List ℤ} → Moved lo hi xs ys → Moved lo hi ys zs → Moved lo hi xs zs
Moved-trans m n = record {
  sized = n.sized ∙ m.sized;
  same = λ P. n.same P ∙ m.same P;
  before = λ k h. n.before k h ∙ m.before k h;
  behind = λ k h. n.behind k h ∙ m.behind k h;
  inside = λ k l h.
      let (j, jl, jh, e) = n.inside k l h in
      let (i, il, ih, e') = m.inside j jl jh in (i, il, ih, e ∙ e');
}

pub Moved-widen :
    {lo hi lo' hi' : ℕ} {xs ys : List ℤ}
    → lo' ≤ lo
    → hi ≤ hi'
    → Moved lo hi xs ys
    → Moved lo' hi' xs ys
Moved-widen {lo} {hi} {lo'} {hi'} {xs} {ys} hl hh m = record {
  sized = m.sized;
  same = m.same;
  before = λ k h. m.before k (omega arith);
  behind = λ k h. m.behind k (omega arith);
  inside = λ k l h. place k l h;
}
  where
    place : (k : ℕ) → lo' ≤ k → k < hi' → (j : ℕ) × (lo' ≤ j) × (j < hi') × (cell ys k ≡ cell xs j)
    place k l h = elim (dec_lt k lo) [
      | yes p ↦ (k, l, h, m.before k p)
      | no p ↦ elim (dec_lt k hi) [
        | yes q ↦
            let (j, jl, jh, e) = m.inside k (omega arith) q in (j, omega arith, omega arith, e)
        | no q ↦ (k, l, h, m.behind k (omega arith))
      ]
    ]

-- The array with two numbers exchanged.
pub record Exchanged (ii jj : ℕ) (xs ys : List ℤ) : Type 0 where
  pub sized : length ys ≡ length xs
  pub same : (P : ℤ → Bool) → tally P ys ≡ tally P xs
  pub cells :
      (k : ℕ)
      → cell ys k ≡ (if k == ii then cell xs jj else if k == jj then cell xs ii else cell xs k)

-- `swap` does not fault inside the array, and exchanges the two numbers.
pub swap-Exchanged :
    (xs : List ℤ) (ii jj : ℕ)
    → ii < length xs
    → jj < length xs
    → Succeeds (swap xs ii jj) (Exchanged ii jj xs)
unfolding swap
swap-Exchanged xs ii jj hi hj = elim (ℕ_discrete ii jj) [
  | yes e ↦
      (xs, ground arith, record { sized = refl; same = λ P. refl; cells = λ k. same_cell k e })
  | no ne ↦
      let other = cell xs jj in
      let tmp = cell xs ii in
      let ys = set xs ii other in
      let len : length ys ≡ length xs = length-set xs ii other in
      let apart : (ii == jj) ≡ false = ground arith in
      let there : cell ys jj ≡ cell xs jj = get_or-set xs ii jj other (pos 0) hi ∙ rw apart refl in
      (
        set ys jj tmp,
        rw (
          apart,
          read-get_or xs ii (pos 0) hi,
          read-get_or xs jj (pos 0) hj,
          store-set xs ii other hi,
          store-set ys jj tmp (omega arith),
        ),
        record {
          sized = length-set ys jj tmp ∙ len;
          same = λ P.
              let there' : one_if (P (cell ys jj)) ≡ one_if (P (cell xs jj)) =
                ap (λ x. one_if (P x)) there in
              omega (arith, tally-set P xs ii other hi, tally-set P ys jj tmp (omega arith));
          cells = λ k. ground (
            arith,
            get_or-set ys jj k tmp (pos 0) (omega arith),
            get_or-set xs ii k other (pos 0) hi,
          );
        },
      )
]
  where
    same_cell :
        (k : ℕ)
        → ii ≡ jj
        → cell xs k ≡ (if k == ii then cell xs jj else if k == jj then cell xs ii else cell xs k)
    same_cell k e = elim (ℕ_discrete k ii) [
      | yes p ↦
          let q : (k == ii) ≡ true = ground arith in
          rw q (get_or_congr xs (pos 0) k jj (omega arith))
      | no p ↦
          let q : (k == ii) ≡ false = ground arith in
          let q' : (k == jj) ≡ false = ground arith in rw (q, q') refl
    ]

-- An exchange inside a range is a rearrangement of it.
pub Exchanged-Moved :
    {lo hi ii jj : ℕ} {xs ys : List ℤ}
    → lo ≤ ii
    → ii < hi
    → lo ≤ jj
    → jj < hi
    → Exchanged ii jj xs ys
    → Moved lo hi xs ys
Exchanged-Moved {lo} {hi} {ii} {jj} {xs} {ys} il ih jl jh e = record {
  sized = e.sized;
  same = e.same;
  before = λ k h. ground (arith, e.cells k);
  behind = λ k h. ground (arith, e.cells k);
  inside = λ k l h. place k l h;
}
  where
    place : (k : ℕ) → lo ≤ k → k < hi → (j : ℕ) × (lo ≤ j) × (j < hi) × (cell ys k ≡ cell xs j)
    place k l h = elim (ℕ_discrete k ii) [
      | yes p ↦ (jj, jl, jh, ground (arith, e.cells k))
      | no p ↦ elim (ℕ_discrete k jj) [
        | yes q ↦ (ii, il, ih, ground (arith, e.cells k))
        | no q ↦ (k, l, h, ground (arith, e.cells k))
      ]
    ]
