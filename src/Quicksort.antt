-- ===== src/Quicksort.antt =====
-- hw03/starter-hw03/quicksort.c, on the list of the numbers that `xs` points to. Indices are natural
-- numbers: `main` sorts from 0, and every call has 0 ≤ lo ≤ hi.
pub mod Exchange
pub mod Partition
pub mod Sorted
mod Tests
use cs.Base.{
  ℕ, zero, suc, ◌+◌, ◌-◌, Bool, true, false, List, ℤ, pos, negsuc, Outcome, ret, fault, out_of_fuel,
  ◌>>=◌, ltb, leb, ◌==◌, if◌then◌else◌, read, store, for_range,
}

-- `a < b` for `long`
unfoldable pub less : ℤ → ℤ → Bool
less (pos a) (pos b) = ltb a b
less (pos a) (negsuc b) = false
less (negsuc a) (pos b) = true
less (negsuc a) (negsuc b) = ltb b a

unfoldable pub swap : List ℤ → ℕ → ℕ → Outcome (List ℤ)
swap xs ii jj =
    let exchange =
      read xs ii >>= λ tmp. read xs jj >>= λ other. store xs ii other >>= λ ys. store ys jj tmp in
    if ii == jj then ret xs else exchange

-- A round of the loop of `partition`, on `ii` and the numbers.
unfoldable pub partition_round : ℤ → ℕ → ℕ × List ℤ → Outcome (ℕ × List ℤ)
partition_round pivot jj (ii, xs) = do
  x ← read xs jj
  if less x pivot then (swap xs ii jj >>= λ ys. ret (ii + 1, ys)) else ret (ii, xs)

unfoldable pub partition : List ℤ → ℕ → ℕ → Outcome (ℕ × List ℤ)
partition xs lo hi = do
  pivot ← read xs (hi - 1)
  (ii, ys) ← for_range (hi - 1 - lo) lo (partition_round pivot) (lo, xs)
  zs ← swap ys ii (hi - 1)
  ret (ii, zs)

unfoldable pub quicksort_fuel : ℕ → List ℤ → ℕ → ℕ → Outcome (List ℤ)
quicksort_fuel zero xs lo hi = fault out_of_fuel
quicksort_fuel (suc f) xs lo hi =
    let sorted =
      (partition xs lo hi >>= λ r.
      quicksort_fuel f r.1 lo r.0 >>= λ zs. quicksort_fuel f zs (r.0 + 1) hi) in
    if ltb (hi - lo) 1 then ret xs else sorted

-- The range gets smaller with each call.
unfoldable pub quicksort : List ℤ → ℕ → ℕ → Outcome (List ℤ)
unfolding quicksort_fuel
quicksort xs lo hi = quicksort_fuel (hi - lo + 1) xs lo hi
